-- ===== src/Accounts/Created.antt =====
-- Accounts that include/UserManager.hpp creates, and how they are found by name.
use exchange_server.Prelude.{
  ℕ, zero, suc, ◌+◌, ◌≤◌, ◌<◌, true, false, none, some, ◌==◌, ==_iff, if◌then◌else◌, ◌≡◌, refl, ◌∙◌,
  ap, arith, Bool-cases, inl, inr,
}
use exchange_server.Prelude.Int.{pos}
use exchange_server.Prelude.Names.{Name, find, assign, find-assign, same_name_refl}
use exchange_server.Prelude.Map.{lookup, insert, lookup-insert}
use exchange_server.Accounts.{
  UserAccount, AccountBucket, UserManager, mtx_count, id_to_mtx, get_account, fresh_account,
  add_account, create_user_account, get_id_from, get_id,
}

-- No bucket knows the name.
abbrev pub Unknown : Name → UserManager → Type 0
Unknown n m = (i : ℕ) → find n (m i).find_account ≡ none

module _ (n : Name) (m : UserManager) (home : ℕ) (a : UserAccount)
    (here : find n (m home).find_account ≡ some a.user_id)
    (there : lookup a.user_id (m home).account ≡ some a)
    (alone : (i : ℕ) → (i == home) ≡ false → find n (m i).find_account ≡ none) where
  get_id_from-home : (left i : ℕ) → i ≤ home → home < i + left → get_id_from left i n m ≡ a.user_id
  unfolding get_id_from
  get_id_from-home zero i lo hi = ground (arith, lo, hi)
  get_id_from-home (suc left) i lo hi =
      let ih = get_id_from-home left (i + 1) in
      elim (Bool-cases (i == home)) [
        | inl e ↦
            let at : i ≡ home = (==_iff i home).0 e in
            rw
              (
                get_id_from,
                ap (λ j. find n (m j).find_account) at ∙ here,
                ap (λ j. lookup a.user_id (m j).account) at ∙ there,
              )
              refl
        | inr e ↦ rw (get_id_from, alone i e) (ih (ground (arith, lo, e)) (omega (arith, hi)))
      ]

module _ (id : ℕ) (n : Name) (m : UserManager) (free : get_account id m ≡ none) where
  abbrev made : UserAccount
  made = fresh_account id n (pos 0)

  create_user_account-free : create_user_account id n m ≡ add_account id made m
  unfolding create_user_account
  create_user_account-free = rw (create_user_account, free) refl

  abbrev home : ℕ
  home = id_to_mtx id

  abbrev bucket : AccountBucket
  bucket = record {
    account = insert id made (m home).account;
    find_account = assign n id (m home).find_account;
  }

  add_account-home : add_account id made m home ≡ bucket
  add_account-home =
      let e : (home == home) ≡ true = ground arith in ap (λ b. if b then bucket else m home) e

  add_account-other : (i : ℕ) → (i == home) ≡ false → add_account id made m i ≡ m i
  add_account-other i e =
      let f : (home == i) ≡ false = ground (arith, e) in ap (λ b. if b then bucket else m i) f

  -- A created account is found by its name, where no other account has the name.
  pub get_id-create_user_account : Unknown n m → get_id n (create_user_account id n m) ≡ id
  unfolding get_id
  get_id-create_user_account unknown =
      let found : find n bucket.find_account ≡ some id =
        find-assign n n id (m home).find_account ∙ rw (same_name_refl n) refl in
      let kept : lookup id bucket.account ≡ some made =
        lookup-insert id id made (m home).account ∙ ground arith in
      ap (get_id_from mtx_count 0 n) create_user_account-free
      ∙ get_id_from-home n (add_account id made m) home made
          (ap (λ b. find n b.find_account) add_account-home ∙ found)
          (ap (λ b. lookup id b.account) add_account-home ∙ kept)
          (λ i e. ap (λ b. find n b.find_account) (add_account-other i e) ∙ unknown i) mtx_count 0
          (omega arith) (omega arith)
