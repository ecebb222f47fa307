-- ===== src/Family/Invite.antt =====
-- What an invitation that succeeds has checked, and that every failure says why.
use just_in_time.Prelude.{
  ℕ, ◌-◌, ◌≤◌, ◌<◌, ◌≡◌, ◌≢◌, ◌⊎◌, inl, inr, refl, subst, ◌==◌, if◌then◌else◌, Bool, Bool-cases,
  true, false, not, Option, none, some, [], ◌∷◌, Bytes, codes, length, length-take, take, is_prefix,
  leb, leb→lt, arith, ℤ,
}
use just_in_time.Auth.{Answer, is_success}
use just_in_time.Family.{
  Rest, Outcome, failure, Lookup, found, missing, strip_json_quotes, find_user, insert_link,
  insert_outcome, check_id, looked_up, invite_found, parentlink_invite_child, update_outcome,
  update_status, parentlink_approve, parentlink_revoke, max_uuid, already_linked, server_error,
  no_connection, log_in_first,
}

-- Either all went well and nothing is written, or the return value is 0 and the caller's buffer of
-- `size` bytes holds a reason that fits.
abbrev pub Explains : ℕ → Outcome → Type 0
Explains size r =
    ((r.ok ≡ true) × (r.err ≡ none))
    ⊎ ((r.ok ≡ false) × ((why : Bytes) × (r.err ≡ some why) × (length why ≤ size - 1)))

failure-Explains : (size : ℕ) (why : Bytes) → Explains size (failure size why)
unfolding failure
failure-Explains size why =
    inr (refl, (take (size - 1) why, refl, omega (arith, length-take (size - 1) why)))

insert_outcome-Explains : (size : ℕ) (a : Option Answer) → Explains size (insert_outcome size a)
unfolding insert_outcome
insert_outcome-Explains size none = failure-Explains size no_connection
insert_outcome-Explains size (some a) = elim (Bool-cases (is_success a.status)) [
  | inl e ↦ rw e (inl (refl, refl))
  | inr e ↦ rw e (elim (Bool-cases (a.status == 409)) [
    | inl conflict ↦ rw conflict (failure-Explains size already_linked)
    | inr other ↦ rw other (failure-Explains size (server_error a))
  ])
]

update_outcome-Explains : (size : ℕ) (a : Option Answer) → Explains size (update_outcome size a)
unfolding update_outcome
update_outcome-Explains size none = failure-Explains size no_connection
update_outcome-Explains size (some a) = elim (Bool-cases (is_success a.status)) [
  | inl e ↦ rw e (inl (refl, refl))
  | inr e ↦ rw e (failure-Explains size (server_error a))
]

-- An answer whose status says that the request was accepted.
abbrev pub Accepted : Option Answer → Type 0
Accepted a = (r : Answer) × (a ≡ some r) × (is_success r.status ≡ true)

insert_outcome-refused :
    (size : ℕ) (a : Answer)
    → is_success a.status ≡ false
    → (insert_outcome size (some a)).ok ≡ false
unfolding insert_outcome failure
insert_outcome-refused size a bad = ground arith

insert_outcome-Accepted :
    (size : ℕ) (a : Option Answer) → (insert_outcome size a).ok ≡ true → Accepted a
unfolding insert_outcome failure
insert_outcome-Accepted size none e = cc
insert_outcome-Accepted size (some a) e = elim (Bool-cases (is_success a.status)) [
  | inl good ↦ (a, refl, good)
  | inr bad ↦ let no = insert_outcome-refused size a bad in cc
]

-- An answer that names an account: a success whose text, without its quotes, is an id of 1 to 39 bytes.
abbrev pub Names : Option Answer → Bytes → Type 0
Names a child =
    (r : Answer) × (a ≡ some r)
    × (is_success r.status ≡ true)
    × (is_prefix (codes "null") r.body ≡ false)
    × (strip_json_quotes r.body ≡ child)
    × (0 < length child)
    × (length child < max_uuid)

found-injective :
    (b : Bool) (why id child : Bytes)
    → (if b then Lookup.missing why else Lookup.found id) ≡ Lookup.found child
    → (b ≡ false) × (id ≡ child)
found-injective true why id child e = cc
found-injective false why id child e = (refl, cc)

check_id-found :
    (response id child : Bytes)
    → check_id response id ≡ Lookup.found child
    → (id ≡ child) × (0 < length child) × (length child < max_uuid)
unfolding check_id
check_id-found response [] child e = cc
check_id-found response (c ∷ id) child e =
    let (short, same) = found-injective (leb max_uuid (length (c ∷ id))) _ (c ∷ id) child e in
    let fits : length (c ∷ id) < max_uuid = leb→lt max_uuid (length (c ∷ id)) short in
    let some_byte : 0 < length (c ∷ id) = omega arith in
    (same, subst (λ x. 0 < length x) same some_byte, subst (λ x. length x < max_uuid) same fits)

passes_checks :
    (good null : Bool) (why why' : Bytes) (l : Lookup) (child : Bytes)
    → (if not good then Lookup.missing why else if null then Lookup.missing why' else l)
      ≡ Lookup.found child
    → (good ≡ true) × (null ≡ false) × (l ≡ Lookup.found child)
passes_checks false null why why' l child e = cc
passes_checks true true why why' l child e = cc
passes_checks true false why why' l child e = (refl, refl, e)

looked_up-Names :
    (email : Bytes) (a : Option Answer) (child : Bytes)
    → looked_up email a ≡ Lookup.found child
    → Names a child
unfolding looked_up
looked_up-Names email none child e = cc
looked_up-Names email (some a) child e =
    let (good, value, id) =
      passes_checks (is_success a.status) (is_prefix (codes "null") a.body) _ _ _ child e in
    let (same, some_byte, fits) = check_id-found a.body (strip_json_quotes a.body) child id in
    (a, refl, good, value, same, some_byte, fits)

module _ {N : Type 0} (rest : Rest N) where
  -- What the second request must have been, given what the first one gave.
  abbrev pub IsLinked : Bytes → Option Answer × N → N → Type 0
  IsLinked email (first, n) n' =
      (child : Bytes) × Names first child
      × Accepted (rest.call (insert_link child) 2048 n).0
      × (n' ≡ (rest.call (insert_link child) 2048 n).1)

  invite_found-IsLinked :
      (email : Bytes) (size : ℕ) (a : Option Answer) (l : Lookup) (n : N)
      → looked_up email a ≡ l
      → (invite_found rest size l n).0.ok ≡ true
      → IsLinked email (a, n) (invite_found rest size l n).1
  unfolding invite_found failure
  invite_found-IsLinked email size a (missing why) n e h = cc
  invite_found-IsLinked email size a (found child) n e h = (
    child,
    looked_up-Names email a child e,
    insert_outcome-Accepted size (rest.call (insert_link child) 2048 n).0 h,
    refl,
  )

  invite_found-Explains :
      (size : ℕ) (l : Lookup) (n : N) → Explains size (invite_found rest size l n).0
  unfolding invite_found
  invite_found-Explains size (missing why) n = failure-Explains size why
  invite_found-Explains size (found child) n =
      insert_outcome-Explains size (rest.call (insert_link child) 2048 n).0

-- If an invitation succeeds, the user was logged in and gave an address, the server named one account
-- for it, with an id of 1 to 39 bytes, and it accepted the link with exactly this account; no other
-- request was made.
pub invite_child-IsLinked :
    {N : Type 0} (rest : Rest N) (logged_in : Bool) (email : Bytes) (size : ℕ) (n : N)
    → (parentlink_invite_child rest logged_in email size n).0.ok ≡ true
    → (logged_in ≡ true)
      × (email ≢ [])
      × IsLinked rest email
          (rest.call (find_user email) 2048 n)
          (parentlink_invite_child rest logged_in email size n).1
unfolding parentlink_invite_child failure
invite_child-IsLinked rest false email size n h = cc
invite_child-IsLinked rest true [] size n h = cc
invite_child-IsLinked rest true (c ∷ email) size n h =
    let (a, n') = rest.call (find_user (c ∷ email)) 2048 n in
    (refl, cc, invite_found-IsLinked rest (c ∷ email) size a (looked_up (c ∷ email) a) n' refl h)

-- An invitation, an approval and a revocation each either succeed and leave the caller's buffer alone,
-- or fail with a reason in it that fits, whatever the server answers.
pub family-Explains :
    {N : Type 0} (rest : Rest N) (logged_in : Bool) (email : Bytes) (link_id : ℤ) (size : ℕ) (n : N)
    → Explains size (parentlink_invite_child rest logged_in email size n).0
      × Explains size (parentlink_approve rest logged_in link_id size n).0
      × Explains size (parentlink_revoke rest logged_in link_id size n).0
unfolding parentlink_invite_child parentlink_approve parentlink_revoke update_status
family-Explains rest false email link_id size n =
    let why = failure-Explains size log_in_first in (why, why, why)
family-Explains rest true [] link_id size n =
    (failure-Explains size _, update_outcome-Explains size _, update_outcome-Explains size _)
family-Explains rest true (c ∷ email) link_id size n =
    let (a, n') = rest.call (find_user (c ∷ email)) 2048 n in
    (
      invite_found-Explains rest size (looked_up (c ∷ email) a) n',
      update_outcome-Explains size _,
      update_outcome-Explains size _,
    )
