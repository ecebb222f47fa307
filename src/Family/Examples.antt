-- ===== src/Family/Examples.antt =====
-- The theorems on links at a server that answers from a list.
use just_in_time.Prelude.{
  ◌≡◌, ◌≢◌, refl, true, List, [], ◌∷◌, Option, none, some, Bytes, codes, pos,
}
use just_in_time.Auth.{Answer}
use just_in_time.Family.{
  Rest, parentlink_invite_child, parentlink_approve, parentlink_revoke, find_user, looked_up,
  check_id, strip_json_quotes, without_end_quote, invite_found, insert_outcome,
}
use just_in_time.Family.Invite.{Explains, IsLinked, invite_child-IsLinked, family-Explains}

-- The answers still to come.
abbrev next_answer : List (Option Answer) → Option Answer × List (Option Answer)
next_answer [] = (none, [])
next_answer (a ∷ rest) = (a, rest)

abbrev scripted : Rest (List (Option Answer))
scripted = record { call = λ c size script. next_answer script }

abbrev answers : List (Option Answer)
answers =
    some (record { status = 200; body = codes "\"u-1\"" })
    ∷ some (record { status = 201; body = [] })
    ∷ []

abbrev email : Bytes
email = codes "an@example.org"

invited : (parentlink_invite_child scripted true email 256 answers).0.ok ≡ true
unfolding parentlink_invite_child looked_up check_id strip_json_quotes without_end_quote
    invite_found insert_outcome
invited = refl

invite_child-IsLinked_example :
    (true ≡ true)
    × (email ≢ [])
    × IsLinked scripted email
        (scripted.call (find_user email) 2048 answers)
        (parentlink_invite_child scripted true email 256 answers).1
invite_child-IsLinked_example = invite_child-IsLinked scripted true email 256 answers invited

family-Explains_example :
    Explains 256 (parentlink_invite_child scripted true email 256 []).0
    × Explains 256 (parentlink_approve scripted true (pos 3) 256 []).0
    × Explains 256 (parentlink_revoke scripted true (pos 3) 256 []).0
family-Explains_example = family-Explains scripted true email (pos 3) 256 []
