-- ===== src/Queue/System.antt =====
-- All the queues of the table together: a thread is in at most one of them, and an operation on
-- one leaves the others alone.
use xinu.Base.{
  ℕ, ◌+◌, ◌≤◌, ◌<◌, ◌≡◌, ◌≢◌, ap, true, false, Bool, List, [], ◌∷◌, ◌++◌, arith, has, has-append,
  ◌==◌, Bool-cases, inl, inr, subst, sym, All-has, false≢true, ◌∙◌, ◌⊎◌,
}
use xinu.Kernel.{nthread, update}
use xinu.Queue.Chain.{Table, Linked-frame}
use xinu.Queue.Contents.{IsQueue, nodes, not-has_of_le}

pub IsQueue-frame :
    (T T' : Table) (q : ℕ) (xs : List ℕ)
    → ((j : ℕ) → has j (nodes q xs) ≡ true → T' j ≡ T j)
    → IsQueue T q xs
    → IsQueue T' q xs
IsQueue-frame T T' q xs same v = record {
  above = v.above;
  below = v.below;
  members = v.members;
  uniq = v.uniq;
  links =
      Linked-frame T T' q (xs ++ (q + 1) ∷ []) (λ j e. ap (λ c. c.next) (same j e))
        (λ j e. ap (λ c. c.prev) (same j (ground arith))) v.links;
  head_key = ground (arith, same q, v.head_key);
  tail_key = ground (arith, same (q + 1), has-append (q + 1) xs ((q + 1) ∷ []), v.tail_key);
}

-- `heads` says which entries are the heads of queues, and `Q` what each holds.
pub record System (T : Table) (heads : ℕ → Bool) (Q : ℕ → List ℕ) : Type 0 where
  pub holds : (h : ℕ) → heads h ≡ true → IsQueue T h (Q h)
  pub tails : (h : ℕ) → heads h ≡ true → heads (h + 1) ≡ false
  pub once :
      (x h h' : ℕ)
      → heads h ≡ true
      → heads h' ≡ true
      → has x (Q h) ≡ true
      → has x (Q h') ≡ true
      → h ≡ h'

ne_of_has : (j t : ℕ) (l : List ℕ) → has j l ≡ true → has t l ≡ false → j ≢ t
ne_of_has j t l a b = ground arith

module _ (T T' : Table) (heads : ℕ → Bool) (Q : ℕ → List ℕ) (h t : ℕ) (xs : List ℕ) where
  other_nodes :
      (h' : ℕ)
      → System T heads Q
      → heads h ≡ true
      → heads h' ≡ true
      → h' ≢ h
      → t < nthread
      → has t (Q h') ≡ false
      → (j : ℕ) → has j (nodes h' (Q h')) ≡ true
      → has j (t ∷ nodes h (Q h)) ≡ false
  other_nodes h' s eh eh' ne lt out j e =
      let v = s.holds h eh in
      let v' = s.holds h' eh' in
      let ne1 : h' ≢ h + 1 = λ i. false≢true (sym (s.tails h eh) ∙ ap heads (sym i) ∙ eh') in
      let ne2 : h ≢ h' + 1 = λ i. false≢true (sym (s.tails h' eh') ∙ ap heads (sym i) ∙ eh) in
      elim (Bool-cases (has j (Q h'))) [
        | inl member ↦
            let low : j < nthread = All-has _ j (Q h') v'.members member in
            let ne_t : j ≢ t = ne_of_has j t (Q h') member out in
            elim (Bool-cases (has j (Q h))) [
              | inl both ↦ absurd (ne (s.once j h' h eh' eh member both))
              | inr apart ↦ ground (arith, has-append j (Q h) ((h + 1) ∷ []), v.above)
            ]
        | inr outside ↦
            let end : (j ≡ h') ⊎ (j ≡ h' + 1) =
              ground (arith, has-append j (Q h') ((h' + 1) ∷ [])) in
            let high : nthread ≤ j = ground (arith, v'.above) in
            let apart = not-has_of_le j (Q h) v.members high in
            ground (arith, has-append j (Q h) ((h + 1) ∷ []))
      ]

  update_once :
      System T heads Q
      → heads h ≡ true
      → ((h' : ℕ) → heads h' ≡ true → h' ≢ h → has t (Q h') ≡ false)
      → ((x : ℕ) → has x xs ≡ true → has x (t ∷ Q h) ≡ true)
      → (x a b : ℕ) → heads a ≡ true
      → heads b ≡ true
      → has x (update Q h xs a) ≡ true
      → has x (update Q h xs b) ≡ true
      → a ≡ b
  update_once s eh free from x a b ea eb ha hb =
      ground (arith, s.once x a b, s.once x h b, s.once x a h, free a, free b, from x)

  pub System-update :
      System T heads Q
      → heads h ≡ true
      → t < nthread
      → ((h' : ℕ) → heads h' ≡ true → h' ≢ h → has t (Q h') ≡ false)
      → IsQueue T' h xs
      → ((j : ℕ) → has j (t ∷ nodes h (Q h)) ≡ false → T' j ≡ T j)
      → ((x : ℕ) → has x xs ≡ true → has x (t ∷ Q h) ≡ true)
      → System T' heads (update Q h xs)
  System-update s eh lt free v cells from = record {
    holds = λ h' eh'. elim (Bool-cases (h' == h)) [
      | inl same ↦ rw same (subst (λ i. IsQueue T' i xs) (ground arith) v)
      | inr ne ↦ rw ne (
          IsQueue-frame T T' h' (Q h')
            (λ j e.
              cells j (other_nodes h' s eh eh' (ground arith) lt (free h' eh' (ground arith)) j e))
            (s.holds h' eh'))
    ];
    tails = s.tails;
    once = λ x a b ea eb ha hb. update_once s eh free from x a b ea eb ha hb;
  }
