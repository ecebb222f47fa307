-- ===== src/Limits/Offline.antt =====
-- Limits hold on without a network and behind a restart.
use just_in_time.Prelude.{
  ℕ, ◌≤◌, ◌<◌, ◌≡◌, refl, ap, ap₂, ◌∙◌, inl, inr, true, false, not, ◌||◌, Option, none, some, List,
  [], ◌∷◌, map, arith, All, Bytes, bytes_eq, bytes_eq→≡, eq_ℤ→≡, Lacks, ◌==◌, if◌then◌else◌,
  Bool-cases, length, take,
}
use just_in_time.Auth.{Session, Answer}
use just_in_time.Limits.{
  AppLimit, Cache, Loaded, max_limits, read_file, load_cache_from_disk, same_limit, same_limits,
  save_cache_to_disk, store_fetched, fetch_limits, applimits_get_my_limits,
  applimits_refresh_my_limits,
}
use just_in_time.Limits.File.{Fits, without_id, read_file-print_cache}

-- A cache that is loaded agrees with its file, but for the ids.
abbrev pub Agrees : Cache → Type 0
Agrees k =
    k.loaded ≡ true
    → read_file k.file ≡ record { user_id = k.user_id; limits = map without_id k.limits }

-- The agent starts anew: only the file is left.
abbrev pub restarted : Cache → Cache
restarted k = record { limits = []; user_id = []; loaded = false; file = k.file }

same_limit→≡ : (a b : AppLimit) → same_limit a b ≡ true → a ≡ b
same_limit→≡ a b h = ground (
  arith,
  eq_ℤ→≡ a.id b.id,
  bytes_eq→≡ a.process_name b.process_name,
  eq_ℤ→≡ a.daily_limit_sec b.daily_limit_sec,
)

same_limits→≡ : (ls bs : List AppLimit) → same_limits ls bs ≡ true → ls ≡ bs
unfolding same_limits
same_limits→≡ [] [] h = refl
same_limits→≡ [] (b ∷ bs) h = cc
same_limits→≡ (a ∷ ls) [] h = cc
same_limits→≡ (a ∷ ls) (b ∷ bs) h = ground (arith, same_limit→≡ a b, same_limits→≡ ls bs)

-- What `applimits_refresh_my_limits` leaves in the file, written or not.
stored_file :
    (user : Bytes) (fetched : List AppLimit) (k : Cache)
    → Lacks 10 user
    → Lacks 13 user
    → All Fits fetched
    → length fetched ≤ max_limits
    → Agrees k
    → read_file (store_fetched true user fetched k).file
      ≡ record { user_id = user; limits = map without_id fetched }
unfolding store_fetched save_cache_to_disk
stored_file user fetched k no_end no_return fits few agrees =
    elim (Bool-cases
      (not k.loaded || not (bytes_eq k.user_id user) || not (same_limits k.limits fetched))) [
        | inl changed ↦ simp changed (read_file-print_cache user fetched no_end no_return fits few)
        | inr same ↦
            let loaded : k.loaded ≡ true = ground arith in
            let users : bytes_eq k.user_id user ≡ true = ground arith in
            let limits : same_limits k.limits fetched ≡ true = ground arith in
            simp same (
              agrees loaded
              ∙ ap₂ (λ u ls. record { user_id = u; limits = map without_id ls })
                  (bytes_eq→≡ k.user_id user users) (same_limits→≡ k.limits fetched limits))
      ]

stored_cache :
    (user : Bytes) (fetched : List AppLimit) (k : Cache)
    → let k' = store_fetched true user fetched k in
      (k'.loaded ≡ true) × (k'.user_id ≡ user) × (k'.limits ≡ fetched)
unfolding store_fetched save_cache_to_disk
stored_cache user fetched k =
    elim (Bool-cases
      (not k.loaded || not (bytes_eq k.user_id user) || not (same_limits k.limits fetched))) [
        | inl changed ↦ simp changed (refl, refl, refl)
        | inr same ↦ simp same (refl, refl, refl)
      ]

-- The limits that are asked for, first thing after a restart.
abbrev pub limits_after_restart : Session → ℕ → Cache → List AppLimit
limits_after_restart session max_out k = (applimits_get_my_limits session max_out (restarted k)).1

restart_lem :
    (session : Session) (max_out : ℕ) (k : Cache) (user : Bytes) (ls : List AppLimit)
    → session.logged_in ≡ true
    → 0 < max_out
    → read_file k.file ≡ record { user_id = user; limits = ls }
    → limits_after_restart session max_out k
      ≡ (if bytes_eq user session.user_id then take max_out ls else [])
unfolding applimits_get_my_limits load_cache_from_disk
restart_lem session max_out k user ls logged room file =
    let room' : (max_out == 0) ≡ false = ground arith in
    rw (room', limits_after_restart)
      (rw logged (
        ap
          (λ (r : Loaded). if bytes_eq r.user_id session.user_id then take max_out r.limits else [])
          file))

refresh_got :
    (session : Session) (answer : Option Answer) (ls : List AppLimit) (k : Cache)
    → session.logged_in ≡ true
    → fetch_limits session answer session.user_id max_limits ≡ some ls
    → (applimits_refresh_my_limits session answer true k).0
      ≡ store_fetched true session.user_id ls k
unfolding applimits_refresh_my_limits
refresh_got session answer ls k logged got = simp (got, logged) refl

refresh_failed :
    (session : Session) (answer : Option Answer) (k : Cache)
    → session.logged_in ≡ true
    → fetch_limits session answer session.user_id max_limits ≡ none
    → (applimits_refresh_my_limits session answer true k).0 ≡ k
unfolding applimits_refresh_my_limits
refresh_failed session answer k logged failed = simp (failed, logged) refl

-- If the server has sent limits once, a later refresh that fails changes nothing, and the agent
-- that is then restarted applies, to the same account and without asking the server, the same
-- limits in the same order but for their ids, and to any other account none. The user id is one
-- line, the entries fit the format, the write succeeds, and the cache agreed with its file.
pub limits_survive :
    (session later : Session) (answer lost : Option Answer) (ls : List AppLimit) (max_out : ℕ)
    (k : Cache)
    → session.logged_in ≡ true
    → fetch_limits session answer session.user_id max_limits ≡ some ls
    → fetch_limits session lost session.user_id max_limits ≡ none
    → Lacks 10 session.user_id
    → Lacks 13 session.user_id
    → All Fits ls
    → length ls ≤ max_limits
    → Agrees k
    → later.logged_in ≡ true
    → 0 < max_out
    → let k' = (applimits_refresh_my_limits session answer true k).0 in
      let k'' = (applimits_refresh_my_limits session lost true k').0 in
      limits_after_restart later max_out k''
      ≡ (if bytes_eq session.user_id later.user_id then take max_out (map without_id ls) else [])
limits_survive session later answer lost ls max_out k logged got failed no_end no_return fits few
      agrees again room =
    let k' = (applimits_refresh_my_limits session answer true k).0 in
    ap (limits_after_restart later max_out)
      (refresh_failed session lost k' logged failed ∙ refresh_got session answer ls k logged got)
    ∙ restart_lem later max_out (store_fetched true session.user_id ls k) session.user_id
        (map without_id ls) again room
        (stored_file session.user_id ls k no_end no_return fits few agrees)
