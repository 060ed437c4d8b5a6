-- ===== src/LinuxOs/Routes/Kernel.antt =====
-- What the kernel documents of routing rules and routes, as the code in
-- rustlib/src/bin/obscura/service/os/linux/routes/traffic_capture_routes.rs relies on it.
use obscuravpn_client.Prelude.{
  ℕ, ◌≡◌, ◌≢◌, ◌⊎◌, Bool, true, false, not, ◌&&◌, ◌||◌, none, some, List, [], ◌∷◌, ◌++◌, any, All,
  Among, ◌==◌,
}
use obscuravpn_client.LinuxOs.Routes.{
  RuleMessage, RouteMessage, RouteRequest, RuleAttribute, table, is_fw_mark, find_destination,
  contains, route_contains, action_eq, route_table_id, oif,
}
use obscuravpn_client.LinuxOs.Routes.Enforcer.{Netlink, done, netlink_error, enoent, esrch, eexist}

-- How a rule that was added is shown: with its header and its attributes, the table always among
-- them, and with no mark and no destination but the rule's.
pub record Shown (r x : RuleMessage) : Type 0 where
  pub shows_family : x.family ≡ r.family
  pub shows_src : x.src_len ≡ r.src_len
  pub shows_dst : x.dst_len ≡ r.dst_len
  pub shows_action : x.action ≡ r.action
  pub shows_invert : x.invert ≡ r.invert
  pub shows_attributes : All (λ a. contains x.attributes a ≡ true) r.attributes
  pub shows_table : (r.header_table ≡ 0) ⊎ (contains x.attributes (table r.header_table) ≡ true)
  pub shows_mark : any is_fw_mark x.attributes ≡ any is_fw_mark r.attributes
  pub shows_destination : find_destination x.attributes ≡ find_destination r.attributes

-- Whether a rule has every attribute of a request.
unfoldable pub carries : List RuleAttribute → RuleMessage → Bool
carries [] x = true
carries (a ∷ rest) x = contains x.attributes a && carries rest x

abbrev same_flag : Bool → Bool → Bool
same_flag true b = b
same_flag false b = not b

-- A request to delete selects the rules with its action, its inversion and its attributes, the
-- table of its header included.
unfoldable pub selects : RuleMessage → RuleMessage → Bool
selects r x =
    action_eq x.action r.action
    && (same_flag r.invert x.invert
        && (carries r.attributes x
            && (r.header_table == 0 || contains x.attributes (table r.header_table))))

-- A route as it is requested.
unfoldable pub is_route : RouteRequest → RouteMessage → Bool
is_route q x =
    x.route_protocol_id == q.with_protocol
    && (x.destination_prefix_length == 0
        && (route_contains x.route_attributes (route_table_id q.table_id)
            && route_contains x.route_attributes (oif q.output_interface)))

-- Whether a route stands in a table.
unfoldable pub in_table : ℕ → RouteMessage → Bool
in_table n x = route_contains x.route_attributes (route_table_id n)

-- A table with one entry more, and what stood in the entry's place.
pub record Inserted {A : Type 0} (replaced : List A) (x : A) (before after : List A) : Type 0 where
  pub front : List A
  pub back : List A
  pub was : before ≡ front ++ (replaced ++ back)
  pub becomes : after ≡ front ++ (x ∷ back)

pub record Removed {A : Type 0} (x : A) (before after : List A) : Type 0 where
  pub left_front : List A
  pub left_back : List A
  pub had : before ≡ left_front ++ (x ∷ left_back)
  pub keeps : after ≡ left_front ++ left_back

pub record Documented (k : Netlink) : Type 0 where
  -- A dump that succeeds is complete.
  pub rule_dump : (xs : List RuleMessage) → (k.rule_get xs ≡ none) ⊎ (k.rule_get xs ≡ some xs)
  pub route_dump : (xs : List RouteMessage) → (k.route_get xs ≡ none) ⊎ (k.route_get xs ≡ some xs)
  -- A rule is added, or was there, or nothing changes.
  pub rule_added :
      (r : RuleMessage) (xs : List RuleMessage)
      → (k.rule_add r xs).1 ≡ done
      → (x : RuleMessage) × Shown r x × Inserted [] x xs (k.rule_add r xs).0
  pub rule_exists :
      (r : RuleMessage) (xs : List RuleMessage)
      → (k.rule_add r xs).1 ≡ netlink_error eexist
      → (x : RuleMessage) × Shown r x × Among x xs
  pub rule_not_added :
      (r : RuleMessage) (xs : List RuleMessage)
      → (k.rule_add r xs).1 ≢ done
      → (k.rule_add r xs).0 ≡ xs
  -- A rule with the attributes of the request goes, or none was selected, or nothing changes.
  pub rule_deleted :
      (r : RuleMessage) (xs : List RuleMessage)
      → (k.rule_del r xs).1 ≡ done
      → (x : RuleMessage) × (carries r.attributes x ≡ true) × Removed x xs (k.rule_del r xs).0
  pub rule_missing :
      (r : RuleMessage) (xs : List RuleMessage)
      → (k.rule_del r xs).1 ≡ netlink_error enoent
      → any (selects r) xs ≡ false
  pub rule_not_deleted :
      (r : RuleMessage) (xs : List RuleMessage)
      → (k.rule_del r xs).1 ≢ done
      → (k.rule_del r xs).0 ≡ xs
  -- The same of routes; a route takes the place of at most one other of its table.
  pub route_replaced :
      (q : RouteRequest) (xs : List RouteMessage)
      → (k.route_replace q xs).1 ≡ done
      → (x : RouteMessage) × (is_route q x ≡ true)
        × ((old : List RouteMessage) × All (λ o. in_table q.table_id o ≡ true) old
            × Inserted old x xs (k.route_replace q xs).0)
  pub route_not_replaced :
      (q : RouteRequest) (xs : List RouteMessage)
      → (k.route_replace q xs).1 ≢ done
      → (k.route_replace q xs).0 ≡ xs
  pub route_deleted :
      (q : RouteRequest) (xs : List RouteMessage)
      → (k.route_del q xs).1 ≡ done
      → (x : RouteMessage) × (in_table q.table_id x ≡ true) × Removed x xs (k.route_del q xs).0
  pub route_missing :
      (q : RouteRequest) (xs : List RouteMessage)
      → (k.route_del q xs).1 ≡ netlink_error esrch
      → any (is_route q) xs ≡ false
  pub route_not_deleted :
      (q : RouteRequest) (xs : List RouteMessage)
      → (k.route_del q xs).1 ≢ done
      → (k.route_del q xs).0 ≡ xs
