-- ===== src/Common/Batch.antt =====
-- foyer-common/src/batch.rs: a queue whose first pusher leads the batch. The lock of the queue
-- makes each operation one step; a channel of tokio is a number that both its ends have.
use foyer.Prelude.{
  ℕ, suc, ◌≡◌, refl, sym, ap, ◌∙◌, Bool, true, false, List, [], ◌∷◌, ◌++◌, if◌then◌else◌,
}

pub data Identity : Type 0 where
  leader follower : ℕ → Identity

pub record Item {ℓ} (A : Type ℓ) : Type ℓ where
  pub arg : A
  pub tx : ℕ

-- `next` is the first channel that was never made.
pub record Batch {ℓ} (A : Type ℓ) : Type ℓ where
  pub queue : List (Item A)
  pub next : ℕ

unfoldable pub new {ℓ} : {A : Type ℓ} → ℕ → Batch A
new next = record { queue = []; next = next }

abbrev pub is_nil {ℓ} : {A : Type ℓ} → List A → Bool
is_nil [] = true
is_nil (x ∷ l) = false

module _ {ℓ} {A : Type ℓ} where
  unfoldable pub push : A → Batch A → Identity × Batch A
  push arg s = (
    if is_nil s.queue then leader s.next else follower s.next,
    record { queue = s.queue ++ record { arg = arg; tx = s.next } ∷ []; next = suc s.next },
  )

  unfoldable pub rotate : Batch A → List (Item A) × Batch A
  rotate s = (s.queue, record s { queue = [] })

  -- Several pushes, one after the other.
  abbrev pub push_all : List A → Batch A → List Identity × Batch A
  push_all [] s = ([], s)
  push_all (arg ∷ args) s =
      let (identity, s') = push arg s in
      let (identities, s'') = push_all args s' in (identity ∷ identities, s'')

  -- The items of a batch, with channels from `n` on.
  abbrev pub items : List A → ℕ → List (Item A)
  items [] n = []
  items (arg ∷ args) n = record { arg = arg; tx = n } ∷ items args (suc n)

  abbrev pub followers : List A → ℕ → List Identity
  followers [] n = []
  followers (arg ∷ args) n = follower n ∷ followers args (suc n)

  snoc-append :
      (l : List (Item A)) (x : Item A) (l' : List (Item A)) → ((l ++ x ∷ []) ++ l') ≡ (l ++ x ∷ l')
  snoc-append [] x l' = refl
  snoc-append (y ∷ l) x l' = ap (λ t. y ∷ t) (snoc-append l x l')

  append_nil : (l : List (Item A)) → (l ++ []) ≡ l
  append_nil [] = refl
  append_nil (y ∷ l) = ap (λ t. y ∷ t) (append_nil l)

  is_nil-snoc : (l : List (Item A)) (x : Item A) → is_nil (l ++ x ∷ []) ≡ false
  is_nil-snoc [] x = refl
  is_nil-snoc (y ∷ l) x = refl

  push_all-queue :
      (args : List A) (s : Batch A) → (push_all args s).1.queue ≡ (s.queue ++ items args s.next)
  unfolding push
  push_all-queue [] s = sym (append_nil s.queue)
  push_all-queue (arg ∷ args) s =
      push_all-queue args (push arg s).1
      ∙ snoc-append s.queue (record { arg = arg; tx = s.next }) (items args (suc s.next))

  push_all-followers :
      (args : List A) (s : Batch A)
      → is_nil s.queue ≡ false
      → (push_all args s).0 ≡ followers args s.next
  unfolding push
  push_all-followers [] s busy = refl
  push_all-followers (arg ∷ args) s busy =
      ap (λ b. (if b then leader s.next else follower s.next) ∷ (push_all args (push arg s).1).0)
        busy
      ∙ ap (λ t. follower s.next ∷ t)
          (push_all-followers args (push arg s).1
            (is_nil-snoc s.queue (record { arg = arg; tx = s.next })))

  -- Of the pushes into an empty batch the first leads and all others follow. The rotation then
  -- hands out their arguments in order, each with the channel of its pusher, and the batch is empty
  -- again.
  pub rotate-push_all :
      (arg : A) (args : List A) (s : Batch A)
      → s.queue ≡ []
      → ((push_all (arg ∷ args) s).0 ≡ leader s.next ∷ followers args (suc s.next))
        × ((rotate (push_all (arg ∷ args) s).1).0 ≡ items (arg ∷ args) s.next)
        × ((rotate (push_all (arg ∷ args) s).1).1.queue ≡ [])
  unfolding push rotate
  rotate-push_all arg args s e = (
    ap
          (λ q.
            (if is_nil q then leader s.next else follower s.next)
            ∷ (push_all args (push arg s).1).0)
          e
        ∙ ap (λ t. leader s.next ∷ t)
            (push_all-followers args (push arg s).1
              (is_nil-snoc s.queue (record { arg = arg; tx = s.next }))),
    push_all-queue (arg ∷ args) s ∙ ap (λ q. q ++ items (arg ∷ args) s.next) e,
    refl,
  )
