-- ===== src/Cloud/Invite.antt =====
-- An invitation asks for a link only for an account that was found.
use just_in_time.Prelude.{
  ◌≡◌, ◌≢◌, ◌⊎◌, inl, inr, refl, ◌==◌, if◌then◌else◌, Bool, Bool-cases, true, false, some, [], ◌∷◌,
  ◌++◌, Bytes, codes, print_ℕ, is_prefix,
}
use just_in_time.Auth.{Answer, is_success}
use just_in_time.Cloud.{
  Value, null, boolean, number, text, array, object, Result, ok, unauthorized, auth_error,
  api_error, json_error, read_answer, status_error,
}
use just_in_time.Cloud.Client.{
  Server, request, find_user_request, insert_link_request, contains, id_in, already_linked,
  link_result, invite_found, invite_looked_up, invite_child,
}

-- How an invitation ended, given what the first request gave.
abbrev pub IsChecked : {N : Type 0} → Server N → Result Value × N → Result (Unit {0}) × N → Type 0
IsChecked s (found, n) (r, n') =
    ((child : Bytes) × (child ≢ [])
      × (found ≡ ok (text child))
      × (n' ≡ (request s (insert_link_request child) false n).1)
      × ((r ≢ ok tt) ⊎ ((v : Value) × ((request s (insert_link_request child) false n).0 ≡ ok v))))
    ⊎ ((n' ≡ n) × (r ≢ ok tt))

no_success : (b : Bool) (x y : Bytes) → (if b then api_error x else api_error y) ≡ ok (tt {0}) → ⊥
no_success true x y e = cc
no_success false x y e = cc

link_result-cases : (v : Result Value) → (link_result v ≢ ok tt) ⊎ ((w : Value) × (v ≡ ok w))
link_result-cases (ok w) = inr (w, refl)
link_result-cases unauthorized = inl cc
link_result-cases (auth_error why) = inl cc
link_result-cases json_error = inl cc
link_result-cases (api_error why) = inl (no_success (contains (codes "409") why) _ _)

module _ {N : Type 0} (s : Server N) where
  found-IsChecked :
      (email : Bytes) (v : Value) (n : N) → IsChecked s (ok v, n) (invite_found s email (id_in v) n)
  found-IsChecked email (text []) n = inr (refl, cc)
  found-IsChecked email (text (c ∷ child)) n = inl (c ∷ child, cc, refl, refl, link_result-cases _)
  found-IsChecked email null n = inr (refl, cc)
  found-IsChecked email (boolean b) n = inr (refl, cc)
  found-IsChecked email (number k) n = inr (refl, cc)
  found-IsChecked email (array vs) n = inr (refl, cc)
  found-IsChecked email (object fs) n = inr (refl, cc)

  looked_up-IsChecked :
      (email : Bytes) (found : Result Value × N)
      → IsChecked s found (invite_looked_up s email found)
  looked_up-IsChecked email (ok v, n) = found-IsChecked email v n
  looked_up-IsChecked email (unauthorized, n) = inr (refl, cc)
  looked_up-IsChecked email (auth_error why, n) = inr (refl, cc)
  looked_up-IsChecked email (api_error why, n) = inr (refl, cc)
  looked_up-IsChecked email (json_error, n) = inr (refl, cc)

-- An invitation first asks for the account. Only if the answer is a string that is not empty, a link
-- is requested, for exactly that id; then success is reported only if the server accepted the link.
-- In every other case nothing more is sent, and no success is reported.
pub invite_child-IsChecked :
    {N : Type 0} (s : Server N) (email : Bytes) (n : N)
    → IsChecked s (request s (find_user_request email) false n) (invite_child s email n)
unfolding invite_child
invite_child-IsChecked s email n =
    looked_up-IsChecked s email (request s (find_user_request email) false n)

contains-append : (p t s : Bytes) → contains p s ≡ true → contains p (t ++ s) ≡ true
unfolding contains
contains-append p [] s h = h
contains-append p (c ∷ t) s h = elim (Bool-cases (is_prefix p (c ∷ (t ++ s)))) [
  | inl e ↦ rw e refl
  | inr e ↦ rw e (contains-append p t s h)
]

status_error-contains :
    (p : Bytes) (a : Answer) → contains p a.body ≡ true → contains p (status_error a) ≡ true
status_error-contains p a h =
    contains-append p (codes "supabase returned ") _
      (contains-append p (print_ℕ a.status) _ (contains-append p (codes ": ") a.body h))

-- Whatever error the server answers to the request for the link: if 409 stands anywhere in the text of
-- its answer, the invitation is reported as already sent or linked.
pub invite_child_masks :
    {N : Type 0} (s : Server N) (email child : Bytes) (n n1 n2 : N) (a : Answer)
    → child ≢ []
    → request s (find_user_request email) false n ≡ (ok (text child), n1)
    → s.send (insert_link_request child) n1 ≡ (some a, n2)
    → (a.status == 401) ≡ false
    → is_success a.status ≡ false
    → contains (codes "409") a.body ≡ true
    → invite_child s email n ≡ (api_error already_linked, n2)
unfolding invite_child
invite_child_masks s email [] n n1 n2 a some_id found sent other failed mentions =
    absurd (some_id refl)
invite_child_masks s email (c ∷ child) n n1 n2 a some_id found sent other failed mentions =
    let answer : request s (insert_link_request (c ∷ child)) false n1
        ≡ (api_error (status_error a), n2) =
      unfold request read_answer in rw sent (rw other (rw failed refl)) in
    rw found (rw answer (rw (status_error-contains (codes "409") a mentions) refl))
