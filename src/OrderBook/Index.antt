-- ===== src/OrderBook/Index.antt =====
-- The index of active orders in include/OrderBook.hpp, against any set of addresses.
use exchange_server.Prelude.{
  ℕ, Bool, true, ◌&&◌, ◌||◌, not, Option, none, some, ◌==◌, ==_iff, if◌then◌else◌, ◌≡◌, ◌≢◌, refl,
  sym, ◌∙◌, ap, subst, arith, Bool-cases, inl, inr, [],
}
use exchange_server.Prelude.Map.{Map, lookup, lookup_or, insert, erase, lookup-insert, lookup-erase}
use exchange_server.OrderBook.{Store, forget, remember}

abbrev pub Active : Type 0
Active = Map (Map ℕ)

-- The address that the index gives for a user and an id.
pub entry : ℕ → ℕ → Active → Option ℕ
entry u o m = lookup o (lookup_or [] u m)

pub entry_lem : (u o : ℕ) (m : Active) → entry u o m ≡ lookup o (lookup_or [] u m)
unfolding entry
entry_lem u o m = refl

abbrev pub hits : ℕ → ℕ → ℕ → ℕ → Bool
hits uid oid u o = (uid == u) && (oid == o)

pub entry-forget :
    (uid oid u o : ℕ) (m : Active)
    → entry u o (forget uid oid m) ≡ (if hits uid oid u o then none else entry u o m)
unfolding entry
entry-forget uid oid u o m = ground (
  arith,
  lookup-insert uid u (erase oid (lookup_or [] uid m)) m,
  lookup-erase oid o (lookup_or [] uid m),
  ==_iff uid u,
)

pub entry-remember :
    (uid oid p u o : ℕ) (m : Active)
    → entry u o (remember uid oid p m) ≡ (if hits uid oid u o then some p else entry u o m)
unfolding entry
entry-remember uid oid p u o m = ground (
  arith,
  lookup-insert uid u (insert oid p (lookup_or [] uid m)) m,
  lookup-insert oid o p (lookup_or [] uid m),
  ==_iff uid u,
)

-- The index holds exactly the addresses of a set, each under its order's user and id, and no two of
-- these orders have one id.
pub record Indexes (s : Store) (m : Active) (R : ℕ → Bool) : Type 0 where
  pub sound :
      (u o p : ℕ) → entry u o m ≡ some p → (R p ≡ true) × ((s p).user_id ≡ u) × ((s p).order_id ≡ o)
  pub complete : (p : ℕ) → R p ≡ true → entry (s p).user_id (s p).order_id m ≡ some p
  pub unique : (p q : ℕ) → R p ≡ true → R q ≡ true → (s p).order_id ≡ (s q).order_id → p ≡ q

-- Stores whose orders have the same users and ids.
pub record SameIds (s s' : Store) : Type 0 where
  pub user_eq : (p : ℕ) → (s' p).user_id ≡ (s p).user_id
  pub id_eq : (p : ℕ) → (s' p).order_id ≡ (s p).order_id

pub Indexes-same :
    (s s' : Store) (m : Active) (R R' : ℕ → Bool)
    → SameIds s s'
    → ((p : ℕ) → R' p ≡ R p)
    → Indexes s m R
    → Indexes s' m R'
Indexes-same s s' m R R' e f x = record {
  sound = λ u o p h. ground (arith, f p, e.user_eq p, e.id_eq p, x.sound u o p h);
  complete = λ p h. rw (e.user_eq p, e.id_eq p) (x.complete p (sym (f p) ∙ h));
  unique =
      λ p q h k a. x.unique p q (sym (f p) ∙ h) (sym (f q) ∙ k) (sym (e.id_eq p) ∙ a ∙ e.id_eq q);
}

pub SameIds-refl : (s : Store) → SameIds s s
SameIds-refl s = record { user_eq = λ p. refl; id_eq = λ p. refl }

pub SameIds-trans : (s t u : Store) → SameIds s t → SameIds t u → SameIds s u
SameIds-trans s t u e f = record {
  user_eq = λ p. f.user_eq p ∙ e.user_eq p;
  id_eq = λ p. f.id_eq p ∙ e.id_eq p;
}

pub Indexes-set :
    (s : Store) (m : Active) (R R' : ℕ → Bool)
    → ((p : ℕ) → R' p ≡ R p)
    → Indexes s m R
    → Indexes s m R'
Indexes-set s m R R' = Indexes-same s s m R R' (SameIds-refl s)

module _ (s : Store) (m : Active) (R : ℕ → Bool) (x : Indexes s m R) (a : ℕ) where
  abbrev pub without : ℕ → Bool
  without p = R p && not (p == a)

  same_id : (p : ℕ) → R a ≡ true → R p ≡ true → (s a).order_id ≡ (s p).order_id → p ≡ a
  same_id p h k e = sym (x.unique a p h k e)

  forget_sound :
      (u o p : ℕ)
      → R a ≡ true
      → entry u o (forget (s a).user_id (s a).order_id m) ≡ some p
      → (without p ≡ true) × ((s p).user_id ≡ u) × ((s p).order_id ≡ o)
  forget_sound u o p h e = elim (Bool-cases (hits (s a).user_id (s a).order_id u o)) [
    | inl k ↦ absurd (ground (arith, entry-forget (s a).user_id (s a).order_id u o m))
    | inr k ↦
        let kept : entry u o m ≡ some p =
          ground (arith, entry-forget (s a).user_id (s a).order_id u o m) in
        let (in_R, same_user, same_id) = x.sound u o p kept in ground arith
  ]

  forget_complete :
      (p : ℕ)
      → R a ≡ true
      → without p ≡ true
      → entry (s p).user_id (s p).order_id (forget (s a).user_id (s a).order_id m) ≡ some p
  forget_complete p h e =
      let there : R p ≡ true = ground arith in
      let found = x.complete p there in
      elim (Bool-cases (hits (s a).user_id (s a).order_id (s p).user_id (s p).order_id)) [
        | inl k ↦ let same = same_id p h there (ground arith) in absurd (ground arith)
        | inr k ↦
            ground (arith, entry-forget (s a).user_id (s a).order_id (s p).user_id (s p).order_id m)
      ]

  pub forget-Indexes : R a ≡ true → Indexes s (forget (s a).user_id (s a).order_id m) without
  forget-Indexes h = record {
    sound = λ u o p. forget_sound u o p h;
    complete = λ p. forget_complete p h;
    unique = λ p q e f g. x.unique p q (ground (arith, e)) (ground (arith, f)) g;
  }

  abbrev pub with_one : ℕ → Bool
  with_one p = (p == a) || R p

  module _ (new : (p : ℕ) → R p ≡ true → (s p).order_id ≢ (s a).order_id) where
    remember_sound :
        (u o p : ℕ)
        → entry u o (remember (s a).user_id (s a).order_id a m) ≡ some p
        → (with_one p ≡ true) × ((s p).user_id ≡ u) × ((s p).order_id ≡ o)
    remember_sound u o p e = elim (Bool-cases (hits (s a).user_id (s a).order_id u o)) [
      | inl k ↦
          let same : a ≡ p = ground (arith, entry-remember (s a).user_id (s a).order_id a u o m) in
          subst (λ r. (with_one r ≡ true) × ((s r).user_id ≡ u) × ((s r).order_id ≡ o)) same
            (ground arith)
      | inr k ↦
          let kept : entry u o m ≡ some p =
            ground (arith, entry-remember (s a).user_id (s a).order_id a u o m) in
          let (in_R, same_user, same_id) = x.sound u o p kept in ground arith
    ]

    remember_complete :
        (p : ℕ)
        → with_one p ≡ true
        → entry (s p).user_id (s p).order_id (remember (s a).user_id (s a).order_id a m) ≡ some p
    remember_complete p e = elim (Bool-cases (p == a)) [
      | inl k ↦
          let same : p ≡ a = ground arith in
          subst
            (λ r.
              entry (s r).user_id (s r).order_id (remember (s a).user_id (s a).order_id a m)
              ≡ some r)
            (sym same)
            (ground
              (arith, entry-remember (s a).user_id (s a).order_id a (s a).user_id (s a).order_id m))
      | inr k ↦
          let there : R p ≡ true = ground arith in
          let found = x.complete p there in
          let other = new p there in
          ground
            (arith, entry-remember (s a).user_id (s a).order_id a (s p).user_id (s p).order_id m)
    ]

    remember_unique :
        (p q : ℕ) → with_one p ≡ true → with_one q ≡ true → (s p).order_id ≡ (s q).order_id → p ≡ q
    remember_unique p q e f g = elim (Bool-cases (p == a)) [
      | inl k ↦ elim (Bool-cases (q == a)) [
        | inl l ↦ ground arith
        | inr l ↦
            let same : p ≡ a = ground arith in
            absurd (new q (ground arith) (sym g ∙ ap (λ r. (s r).order_id) same))
      ]
      | inr k ↦ elim (Bool-cases (q == a)) [
        | inl l ↦
            let same : q ≡ a = ground arith in
            absurd (new p (ground arith) (g ∙ ap (λ r. (s r).order_id) same))
        | inr l ↦ x.unique p q (ground arith) (ground arith) g
      ]
    ]

    pub remember-Indexes : Indexes s (remember (s a).user_id (s a).order_id a m) with_one
    remember-Indexes = record {
      sound = remember_sound;
      complete = remember_complete;
      unique = remember_unique;
    }
