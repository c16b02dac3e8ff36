-- ===== src/Memory/Indexer/Table/Laws.antt =====
-- `HashTableIndexer` of foyer-memory/src/indexer.rs meets the contract of `Indexer`, over any hash
-- table that does what its crate documents.
use foyer.Prelude.{
  ℕ, ◌≤◌, ◌<◌, ◌≡◌, refl, sym, ap, subst, ◌∙◌, fun_ext, ◌≢◌, inl, inr, Bool, true, false, not, ◌&&◌,
  ◌||◌, Option, none, some, List, arith, ◌==◌, ==_iff, Bool-cases, contains, IsDistinct,
}
use foyer.Memory.Handle.{Memory, on_base, in_indexer, set_in_indexer, key}
use foyer.Memory.Handle.{for_each, for_each_lem}
use foyer.Memory.Indexer.{KeyOps, Indexer, IndexerLaws, IndexEffect, is_at}
use foyer.Memory.Indexer.Table.{
  HashTable, HashTableLaws, has_key, get, insert_at, insert_key, insert, remove_at, remove, unindex,
  drain,
}

module _ {ℓ} {K V : Type ℓ} {C X T : Type 0} (keys : KeyOps K) (h : HashTable T)
    (count : T → ℕ → ℕ → ℕ) (laws : HashTableLaws h count) where
  abbrev pub table_indexer : Indexer K V C X T
  table_indexer = record {
    new = h.new;
    insert = insert keys h;
    get = get keys h;
    remove = remove keys h;
    drain = drain keys h;
  }

  -- The table has each handle whose flag is set, once and under its hash, and no other; each has
  -- a key, and no two have the same.
  pub record IsIndexed (t : T) (m : Memory K V C X) : Type ℓ where
    pub held : (a q : ℕ) → 0 < count t a q → (in_indexer m q ≡ true) × ((m q).base.hash ≡ a)
    pub present : (q : ℕ) → in_indexer m q ≡ true → 0 < count t (m q).base.hash q
    pub once : (a q : ℕ) → count t a q ≤ 1
    pub keyed :
        (q : ℕ)
        → in_indexer m q ≡ true
        → (k : K) × (key (m q).base ≡ some k) × ((m q).base.hash ≡ keys.hash_one k)
    pub unique :
        (p q : ℕ)
        → in_indexer m p ≡ true
        → in_indexer m q ≡ true
        → key (m p).base ≡ key (m q).base
        → p ≡ q

  has_key-true :
      (k : K) (m : Memory K V C X) (p : ℕ) → has_key keys h k m p ≡ true → key (m p).base ≡ some k
  unfolding has_key
  has_key-true k m p e = go (key (m p).base) refl e
    where
      go :
          (o : Option K)
          → key (m p).base ≡ o
          → (elim o [ none ↦ false | some k' ↦ keys.beq k' k ]) ≡ true
          → key (m p).base ≡ some k
      go none e f = cc
      go (some k') e f = e ∙ ap some ((keys.beq_iff k' k).0 f)

  has_key_refl :
      (k : K) (m : Memory K V C X) (p : ℕ) → key (m p).base ≡ some k → has_key keys h k m p ≡ true
  unfolding has_key
  has_key_refl k m p e = rw (e, has_key) ((keys.beq_iff k k).1 refl)

  pub get_some_lem :
      (k : K) (p : ℕ) (t : T) (m : Memory K V C X)
      → IsIndexed t m
      → get keys h (keys.hash_one k) k t m ≡ some p
      → (in_indexer m p ≡ true) × (key (m p).base ≡ some k)
  unfolding get
  get_some_lem k p t m w e =
      let (c, f) = laws.find_some (keys.hash_one k) p (has_key keys h k m) t e in
      ((w.held _ p c).0, has_key-true k m p f)

  pub get_none_lem :
      (k : K) (p : ℕ) (t : T) (m : Memory K V C X)
      → IsIndexed t m
      → get keys h (keys.hash_one k) k t m ≡ none
      → in_indexer m p ≡ true
      → key (m p).base ≢ some k
  unfolding get
  get_none_lem k p t m w e on f =
      let (k', f', g) = w.keyed p on in
      let same : (m p).base.hash ≡ keys.hash_one k = ground (arith, f, f', g) in
      let c : 0 < count t (keys.hash_one k) p =
        subst (λ a. 0 < count t a p) same (w.present p on) in
      let no_key = laws.find_none (keys.hash_one k) p (has_key keys h k m) t e c in
      ground (arith, has_key_refl k m p f, no_key)

  has_key_cong :
      (k : K) (m m' : Memory K V C X)
      → ((q : ℕ) → key (m' q).base ≡ key (m q).base)
      → has_key keys h k m' ≡ has_key keys h k m
  unfolding has_key
  has_key_cong k m m' same =
      fun_ext (λ q. ap (λ o. elim o [ none ↦ false | some k' ↦ keys.beq k' k ]) (same q))

  -- The tables of `insert` and `remove` from the counts.
  moved-IsIndexed :
      (flag : ℕ → Bool) (t t' : T) (m m' : Memory K V C X)
      → IsIndexed t m
      → ((q : ℕ) → (m' q).base ≡ set_in_indexer (flag q) (m q).base)
      → ((a q : ℕ) → 0 < count t' a q → (flag q ≡ true) × ((m q).base.hash ≡ a))
      → ((q : ℕ) → flag q ≡ true → 0 < count t' (m q).base.hash q)
      → ((a q : ℕ) → count t' a q ≤ 1)
      → ((q : ℕ)
          → flag q ≡ true
          → (k : K) × (key (m q).base ≡ some k) × ((m q).base.hash ≡ keys.hash_one k))
      → ((p q : ℕ) → flag p ≡ true → flag q ≡ true → key (m p).base ≡ key (m q).base → p ≡ q)
      → IsIndexed t' m'
  unfolding key
  moved-IsIndexed flag t t' m m' w bases held present once keyed unique = record {
    held = λ a q c. ground (arith, bases q, held a q c);
    present = λ q on. ground (arith, bases q, present q);
    once = once;
    keyed = λ q on.
        let (k, e, g) = keyed q (ground (arith, bases q)) in
        (k, ground (arith, bases q, e), ground (arith, bases q, g));
    unique = λ p q on on' e.
        unique p q (ground (arith, bases p)) (ground (arith, bases q))
          (ground (arith, bases p, bases q, e));
  }

  -- After the entry that was found, no indexed handle has the key.
  only_key :
      (o : Option ℕ) (k : K) (t : T) (m : Memory K V C X)
      → IsIndexed t m
      → get keys h (keys.hash_one k) k t m ≡ o
      → (q : ℕ) → in_indexer m q ≡ true
      → is_at o q ≡ false
      → key (m q).base ≢ some k
  only_key none k t m w found q on off e = get_none_lem k q t m w found on e
  only_key (some old) k t m w found q on off e =
      let (on', e') = get_some_lem k old t m w found in
      let same : q ≡ old = w.unique q old on on' (e ∙ sym e') in ground (arith, same)

  abbrev joined : Option ℕ → ℕ → Memory K V C X → ℕ → Bool
  joined o p m q = q == p || in_indexer m q && not (is_at o q)

  joined_keyed :
      (o : Option ℕ) (p : ℕ) (k : K) (t : T) (m : Memory K V C X)
      → IsIndexed t m
      → key (m p).base ≡ some k
      → (m p).base.hash ≡ keys.hash_one k
      → (q : ℕ) → joined o p m q ≡ true
      → (k' : K) × (key (m q).base ≡ some k') × ((m q).base.hash ≡ keys.hash_one k')
  joined_keyed o p k t m w e g q on = elim (Bool-cases (q == p)) [
    | inl same ↦
        let here : q ≡ p = (==_iff q p).0 same in
        (k, ap (λ r. key (m r).base) here ∙ e, ap (λ r. (m r).base.hash) here ∙ g)
    | inr other ↦ w.keyed q (ground arith)
  ]

  joined_unique :
      (o : Option ℕ) (p : ℕ) (k : K) (t : T) (m : Memory K V C X)
      → IsIndexed t m
      → key (m p).base ≡ some k
      → get keys h (keys.hash_one k) k t m ≡ o
      → (q r : ℕ) → joined o p m q ≡ true
      → joined o p m r ≡ true
      → key (m q).base ≡ key (m r).base
      → q ≡ r
  joined_unique o p k t m w e found q r on on' same = elim (Bool-cases (q == p)) [
    | inl a ↦ elim (Bool-cases (r == p)) [
      | inl b ↦ ground arith
      | inr b ↦
          let here : q ≡ p = (==_iff q p).0 a in
          absurd (
            only_key o k t m w found r (ground arith) (ground arith)
              (sym same ∙ ap (λ x. key (m x).base) here ∙ e))
    ]
    | inr a ↦ elim (Bool-cases (r == p)) [
      | inl b ↦
          let here : r ≡ p = (==_iff r p).0 b in
          absurd (
            only_key o k t m w found q (ground arith) (ground arith)
              (same ∙ ap (λ x. key (m x).base) here ∙ e))
      | inr b ↦ w.unique q r (ground arith) (ground arith) same
    ]
  ]

  -- The two writes of the occupied arm.
  swapped :
      (old p : ℕ) (m : Memory K V C X) (q : ℕ)
      → (old == p) ≡ false
      → (on_base (set_in_indexer false) old (on_base (set_in_indexer true) p m) q).base
        ≡ set_in_indexer (joined (some old) p m q) (m q).base
  swapped old p m q ne = elim (Bool-cases (q == old)) [
    | inl a ↦ elim (Bool-cases (q == p)) [
      | inl b ↦ absurd (ground arith)
      | inr b ↦ rw (a, b, ne) (ground (arith, ap m ((==_iff q old).0 a)))
    ]
    | inr a ↦ elim (Bool-cases (q == p)) [
      | inl b ↦ rw (a, b) (ground (arith, ap m ((==_iff q p).0 b)))
      | inr b ↦ rw (a, b) (ground arith)
    ]
  ]

  insert_at_lem :
      (o : Option ℕ) (p : ℕ) (k : K) (t : T) (m : Memory K V C X)
      → IsIndexed t m
      → key (m p).base ≡ some k
      → (m p).base.hash ≡ keys.hash_one k
      → in_indexer m p ≡ false
      → get keys h (keys.hash_one k) k t m ≡ o
      → (t' : T) × (m' : Memory K V C X) × (insert_at keys h o
            (m p).base.hash
            p
            t
            (on_base (set_in_indexer true) p m)
          ≡ (o, t', m'))
        × IndexEffect IsIndexed m (joined o p m) t' m'
  unfolding insert_at
  insert_at_lem none p k t m w e g off found =
      let hash = (m p).base.hash in
      let after = λ (a q : ℕ). laws.count-insert hash p t a q in
      (
        _,
        _,
        refl,
        record {
          wf =
              moved-IsIndexed (joined none p m) t _ m _ w (λ q. ground arith)
                (λ a q c. ground (arith, after a q, w.held a q))
                (λ q on. ground (arith, after (m q).base.hash q, w.present q))
                (λ a q. ground (arith, after a q, w.once a q, w.held a q))
                (joined_keyed none p k t m w e g) (joined_unique none p k t m w e found);
          bases = λ q. ground arith;
          owns = λ q. ground arith;
        },
      )
  insert_at_lem (some old) p k t m w e g off found =
      let hash = (m p).base.hash in
      let (on, e') = get_some_lem k old t m w found in
      let (k', f, g') = w.keyed old on in
      let old_hash : (m old).base.hash ≡ hash = ground (arith, f, e', g', g) in
      let c : 0 < count t hash old = subst (λ a. 0 < count t a old) old_hash (w.present old on) in
      let ne : (old == p) ≡ false = ground (arith, on, off) in
      let after = λ (a q : ℕ). laws.count-replace hash old p t a q c in
      (
        _,
        _,
        refl,
        record {
          wf =
              moved-IsIndexed (joined (some old) p m) t _ m _ w (λ q. swapped old p m q ne)
                (λ a q x. ground (arith, after a q, w.held a q, w.once a q))
                (λ q on. ground (arith, after (m q).base.hash q, w.present q))
                (λ a q. ground (arith, after a q, w.once a q, w.held a q))
                (joined_keyed (some old) p k t m w e g)
                (joined_unique (some old) p k t m w e found);
          bases = λ q. swapped old p m q ne;
          owns = λ q. ground arith;
        },
      )

  -- The law of `insert`.
  pub insert_lem :
      (p : ℕ) (k : K) (t : T) (m : Memory K V C X)
      → IsIndexed t m
      → key (m p).base ≡ some k
      → (m p).base.hash ≡ keys.hash_one k
      → in_indexer m p ≡ false
      → let o = get keys h (keys.hash_one k) k t m in
        (t' : T) × (m' : Memory K V C X) × (insert keys h p t m ≡ some (o, t', m'))
        × IndexEffect IsIndexed m (λ q. q == p || in_indexer m q && not (is_at o q)) t' m'
  unfolding insert insert_key get
  insert_lem p k t m w e g off =
      let (t', m', f, o) = insert_at_lem _ p k t m w e g off refl in
      let same =
        has_key_cong k m (on_base (set_in_indexer true) p m) (λ q. unfold key in ground arith) in
      let found =
        ap (λ a. h.find a (has_key keys h k (on_base (set_in_indexer true) p m)) t) g
        ∙ ap (λ eq. h.find (keys.hash_one k) eq t) same in
      (
        t',
        m',
        rw e (
            ap
              (λ o.
                some (insert_at keys h o (m p).base.hash p t (on_base (set_in_indexer true) p m)))
              found
            ∙ ap some f),
        o,
      )

  remove_at_lem :
      (o : Option ℕ) (k : K) (t : T) (m : Memory K V C X)
      → IsIndexed t m
      → get keys h (keys.hash_one k) k t m ≡ o
      → (t' : T) × (m' : Memory K V C X) × (remove_at keys h o (keys.hash_one k) t m ≡ (o, t', m'))
        × IndexEffect IsIndexed m (λ q. in_indexer m q && not (is_at o q)) t' m'
  unfolding remove_at
  remove_at_lem none k t m w found =
      (t, m, refl, record { wf = w; bases = λ q. ground arith; owns = λ q. refl })
  remove_at_lem (some p) k t m w found =
      let (on, e) = get_some_lem k p t m w found in
      let (k', f, g) = w.keyed p on in
      let hash : (m p).base.hash ≡ keys.hash_one k = ground (arith, f, e, g) in
      let c : 0 < count t (keys.hash_one k) p =
        subst (λ a. 0 < count t a p) hash (w.present p on) in
      let after = λ (a q : ℕ). laws.count-remove (keys.hash_one k) p t a q c in
      (
        _,
        _,
        refl,
        record {
          wf =
              moved-IsIndexed (λ q. in_indexer m q && not (is_at (some p) q)) t _ m _ w
                (λ q. ground arith) (λ a q x. ground (arith, after a q, w.held a q, w.once a q))
                (λ q x. ground (arith, after (m q).base.hash q, w.present q))
                (λ a q. ground (arith, after a q, w.once a q)) (λ q x. w.keyed q (ground arith))
                (λ q r x y. w.unique q r (ground arith) (ground arith));
          bases = λ q. ground arith;
          owns = λ q. ground arith;
        },
      )

  -- The law of `remove`.
  pub remove_lem :
      (k : K) (t : T) (m : Memory K V C X)
      → IsIndexed t m
      → let o = get keys h (keys.hash_one k) k t m in
        (t' : T) × (m' : Memory K V C X) × (remove keys h (keys.hash_one k) k t m ≡ (o, t', m'))
        × IndexEffect IsIndexed m (λ q. in_indexer m q && not (is_at o q)) t' m'
  unfolding remove get
  remove_lem k t m w = remove_at_lem _ k t m w refl

  drained :
      (t : T) (m : Memory K V C X)
      → IsIndexed t m
      → IsDistinct (h.drain t) × ((q : ℕ) → contains (h.drain t) q ≡ in_indexer m q)
  drained t m w = (
    laws.drain_distinct t w.once (λ a b q x y. ground (arith, w.held a q x, w.held b q y)),
    λ q. elim (Bool-cases (contains (h.drain t) q)) [
      | inl c ↦ let (a, x) = laws.drain_held t q c in c ∙ sym (w.held a q x).0
      | inr c ↦ elim (Bool-cases (in_indexer m q)) [
        | inl on ↦ laws.held_drain t _ q (w.present q on) ∙ sym on
        | inr off ↦ c ∙ sym off
      ]
    ],
  )

  -- The law of `drain`.
  pub drain_lem :
      (t : T) (m : Memory K V C X)
      → IsIndexed t m
      → (ps : List ℕ) × (t' : T) × (m' : Memory K V C X) × (drain keys h t m ≡ (ps, t', m'))
        × IsDistinct ps
        × ((q : ℕ) → contains ps q ≡ in_indexer m q)
        × IndexEffect IsIndexed m (λ q. false) t' m'
  unfolding drain
  drain_lem t m w =
      let (distinct, members) = drained t m w in
      let each = λ (q : ℕ). for_each_lem unindex (h.drain t) m q distinct in
      let bases : (q : ℕ)
          → (for_each unindex (h.drain t) m q).base ≡ set_in_indexer false (m q).base =
        λ q. ground (arith, each q, members q) in
      (
        _,
        _,
        _,
        refl,
        distinct,
        members,
        record {
          wf =
              moved-IsIndexed (λ q. false) t h.new m _ w bases
                (λ a q x. ground (arith, laws.count-new a q)) (λ q x. ground arith)
                (λ a q. ground (arith, laws.count-new a q)) (λ q x. absurd (ground arith))
                (λ q r x y e. ground arith);
          bases = bases;
          owns = λ q. ground (arith, each q);
        },
      )

  -- `HashTableIndexer` meets the contract of `Indexer`.
  pub table-IndexerLaws : IndexerLaws keys table_indexer IsIndexed
  table-IndexerLaws = record {
    new_law = λ m off. record {
      held = λ a q x. ground (arith, laws.count-new a q);
      present = λ q on. ground (arith, off q);
      once = λ a q. ground (arith, laws.count-new a q);
      keyed = λ q on. absurd (ground (arith, off q));
      unique = λ p q on on' e. ground (arith, off p);
    };
    insert_law = insert_lem;
    get_some = get_some_lem;
    get_none = get_none_lem;
    remove_law = remove_lem;
    drain_law = drain_lem;
    indexed = λ p t m w on. w.keyed p on;
    unique = λ p q t m w on on' e. w.unique p q on on' e;
    stable = λ t m m' w flags same.
        let on_before = λ (q : ℕ) (on : in_indexer m' q ≡ true). sym (flags q) ∙ on in
        record {
          held = λ a q x. let (on, hash) = w.held a q x in (flags q ∙ on, (same q on).1 ∙ hash);
          present = λ q on.
              subst (λ a. 0 < count t a q) (sym (same q (on_before q on)).1)
                (w.present q (on_before q on));
          once = w.once;
          keyed = λ q on.
              let (k, e, g) = w.keyed q (on_before q on) in
              let (f, a) = same q (on_before q on) in (k, f ∙ e, a ∙ g);
          unique = λ p q on on' e.
              w.unique p q (on_before p on) (on_before q on')
                (sym (same p (on_before p on)).0 ∙ e ∙ (same q (on_before q on')).0);
        };
  }
