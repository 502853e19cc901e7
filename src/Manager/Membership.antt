-- ===== src/Manager/Membership.antt =====
-- pkg/manager/membership.go: the members that are suspected of having failed, and their eviction.
--
-- `mu` makes each method atomic, so a method is a function of the state. What the methods do to the
-- world, the calls of `fn`, is their second result: the names that `fn` was called with. What the
-- world does to them, the error that `fn` returns for a name and the clock, is an argument.
pub mod History
pub mod Sweep
pub mod Eviction
mod Tests
use e2d.Prelude.{
  bool_eq, ℕ, zero, suc, ◌+◌, ◌-◌, ◌*◌, ◌/◌, ◌%◌, ◌≤◌, ◌<◌, String, ◌≡◌, refl, sym, ap, ◌∙◌, subst,
  fun_ext, ◌≢◌, ◌↔◌, ◌⊎◌, inl, inr, Bool, true, false, not, ◌&&◌, ◌||◌, false≢true, Option, none,
  some, List, [], ◌∷◌, ◌++◌, map, append-nil, append_assoc, arith, ltb, leb, ◌==◌, if◌then◌else◌,
  Bool-cases, Option-cases, ==_iff, length, take, drop, length-append, length-take, take-append,
  drop-append, take-append-drop, select, all, any, All, In, In-append_left, In-append_right,
  In-append, Text, codes, str_eq, str_eq_refl, str_eq_iff, has_prefix, contains, str_lt,
  trim_prefix, has_prefix-append, append-drop_of_has_prefix, contains_of_has_prefix, Error,
  key_not_found, no_rows, not_indexed, invalid_field, field_required, invalid_primary_key,
  table_not_found, unique_constraint, no_primary_key, not_encrypted, malformed_ciphertext,
  no_encryption_key, message_auth_failed, unexpected_eof, invalid_scheme, cannot_parse_url,
  cannot_find_member, server_stopped, deadline, other, Result, ok, err, panic, ◌>>=◌, Assoc, lookup,
  delete, insert, lookup-delete, lookup-insert, In-of_lookup, In-delete,
}

-- The fields of `clusterMembership` that change, and its timeout. Times are in nanoseconds.
pub record Membership : Type 0 where
  pub timeout : ℕ
  pub suspects : Assoc ℕ
  pub has_quorum : Bool

-- `newClusterMembership`; the ticker that it starts is `tick` below.
unfoldable pub new_cluster_membership : ℕ → Membership
new_cluster_membership d = record { timeout = d; suspects = []; has_quorum = false }

unfoldable pub add_suspect : Text → ℕ → Membership → Membership
add_suspect name now c = record c { suspects = insert name now c.suspects }

unfoldable pub remove_suspect : Text → Membership → Membership
remove_suspect name c = record c { suspects = delete name c.suspects }

-- What a call of `removeMember` leaves behind: the state, the names given to `fn`, and its error.
pub record Removal : Type 0 where
  pub state : Membership
  pub evicted : List Text
  pub error : Option Error

after_fn : Text → Membership → Option Error → Removal
after_fn name c (some e) = record { state = c; evicted = name ∷ []; error = some e }
after_fn name c none = record {
  state = record c { suspects = delete name c.suspects };
  evicted = name ∷ [];
  error = none;
}

unfoldable pub remove_member : (Text → Option Error) → Text → Membership → Removal
unfolding after_fn
remove_member fn name c =
    if c.has_quorum
    then after_fn name c (fn name)
    else record { state = c; evicted = []; error = none }

unfoldable pub ensure_quorum : Bool → Membership → Membership × Bool
ensure_quorum q c =
    if bool_eq q c.has_quorum
    then (c, c.has_quorum)
    else (record c { has_quorum = q; suspects = [] }, q)

-- The loop of the ticker over the entries of `suspects`, one after the other, the errors logged
-- and dropped. The loop ranges over the map from which `removeMember` deletes the current entry.
unfoldable pub sweep : (Text → Option Error) → ℕ → Assoc ℕ → Membership → Membership × List Text
sweep fn now [] c = (c, [])
sweep fn now ((name, t) ∷ rest) c =
    let skipped = sweep fn now rest c in
    let r = remove_member fn name c in
    let removed = sweep fn now rest r.state in
    if ltb now (t + c.timeout) then skipped else (removed.0, r.evicted ++ removed.1)

-- One tick of the clock, the loop taken as one step: no other method comes between its entries.
unfoldable pub tick : (Text → Option Error) → ℕ → Membership → Membership × List Text
tick fn now c = sweep fn now c.suspects c
