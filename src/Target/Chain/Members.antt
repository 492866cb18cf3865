-- ===== src/Target/Chain/Members.antt =====
-- The targets of a chain in their order (src/target/chain.c).
use stumpless.Base.{
  ℕ, zero, suc, ◌+◌, ◌-◌, ◌*◌, ◌%◌, ◌^◌, ◌<◌, ◌≤◌, ◌≡◌, ◌≢◌, refl, ap, ap₂, ◌∙◌, sym, [], ◌∷◌, ◌++◌,
  List, true, false, ◌⊎◌, inl, inr, none, some, length, length-append, length-take, length-set,
  length-replicate, append_assoc, append-nil, set, take, take_all, ltb, leb, Bool-cases, arith,
}
use stumpless.World.{
  World, realloc_pointer-cases, clear_error, unlock-lock, remove-cons_self, remove,
}
use stumpless.Target.{Target, chain_target, lock_target}
use stumpless.Target.Chain.{
  ChainTarget, is_chain, locked_add, stumpless_add_target_to_chain, lock_chain_target,
  new_chain_target, stumpless_get_chain_length,
}

abbrev pub members : ChainTarget → List ℕ
members chain = take chain.target_count chain.targets ++ chain.overflow_targets

take-set : (xs : List ℕ) (i v : ℕ) → i < length xs → take (suc i) (set xs i v) ≡ take i xs ++ v ∷ []
take-set [] i v h = absurd (omega arith)
take-set (x ∷ xs) zero v h = refl
take-set (x ∷ xs) (suc i) v h = ap (λ ys. x ∷ ys) (take-set xs i v (omega arith))

module _ (array_length : ℕ) where
  -- The array has its length, and there are others only when it is full.
  pub record IsValid (chain : ChainTarget) : Type 0 where
    pub whole : length chain.targets ≡ array_length
    pub counted :
        ((chain.target_count < array_length) × (chain.overflow_targets ≡ []))
        ⊎ (chain.target_count ≡ array_length + length chain.overflow_targets)

  members_in_array :
      (chain : ChainTarget) (new : ℕ)
      → IsValid chain
      → chain.target_count < array_length
      → let chain' = record chain {
        targets = set chain.targets chain.target_count new;
        target_count = chain.target_count + 1;
      } in
        IsValid chain' × (members chain' ≡ members chain ++ new ∷ [])
  members_in_array chain new v here =
      let empty : chain.overflow_targets ≡ [] = elim v.counted [
        | inl (_, e) ↦ e
        | inr full ↦ absurd (omega arith)
      ] in
      (
        record {
          whole = length-set chain.targets chain.target_count new ∙ v.whole;
          counted = elim (Bool-cases (ltb (chain.target_count + 1) array_length)) [
            | inl more ↦ inl (ground arith, empty)
            | inr last ↦
                let full : array_length ≤ chain.target_count + 1 = ground arith in
                inr (omega (arith, ap length empty))
          ];
        },
        rw empty (
            append-nil _
            ∙ ap (λ n. take n (set chain.targets chain.target_count new))
                {y = suc chain.target_count} (omega arith)
            ∙ take-set chain.targets chain.target_count new (omega (arith, v.whole))
            ∙ ap (λ t. t ++ new ∷ []) (sym (append-nil _))),
      )

  members_overflowing :
      (chain : ChainTarget) (new block : ℕ)
      → IsValid chain
      → array_length ≤ chain.target_count
      → let chain' = record chain {
        overflow_block = some block;
        overflow_targets = chain.overflow_targets ++ new ∷ [];
        target_count = chain.target_count + 1;
      } in
        IsValid chain' × (members chain' ≡ members chain ++ new ∷ [])
  members_overflowing chain new block v full =
      let counted : chain.target_count ≡ array_length + length chain.overflow_targets =
        elim v.counted [ inl (less, _) ↦ absurd (omega arith) | inr e ↦ e ] in
      (
        record {
          whole = v.whole;
          counted = inr (omega (arith, length-append chain.overflow_targets (new ∷ [])));
        },
        ap (λ t. t ++ (chain.overflow_targets ++ new ∷ []))
              (take_all (chain.target_count + 1) chain.targets (omega (arith, v.whole))
                ∙ sym (take_all chain.target_count chain.targets (omega (arith, v.whole))))
            ∙ sym (
                append_assoc (take chain.target_count chain.targets) chain.overflow_targets
                  (new ∷ [])),
      )

  -- The array is full and the allocator refuses room for one target more behind it.
  abbrev pub IsRefused : ChainTarget → World → Type 0
  IsRefused chain w =
      (array_length ≤ chain.target_count)
      × (w.malloc w.calls (((chain.target_count - array_length) * 8 + 8) % 2 ^ 64) ≡ false)

  locked_add-members :
      (chain : ChainTarget) (new : ℕ) (w : World)
      → IsValid chain
      → let (done, chain', w') = locked_add array_length chain new w in
        (w'.held ≡ w.held)
        × (((done ≡ true)
              × IsValid chain'
              × (members chain' ≡ members chain ++ new ∷ [])
              × (w'.error_valid ≡ w.error_valid))
            ⊎ ((done ≡ false)
                × (chain' ≡ chain)
                × (w'.error_valid ≡ true)
                × (w'.live ≡ w.live)
                × IsRefused chain w))
  unfolding locked_add
  locked_add-members chain new w v = elim (Bool-cases (leb array_length chain.target_count)) [
    | inr inside ↦
        let (valid, list) = members_in_array chain new v (ground arith) in
        rw inside (refl, inl (refl, valid, list, refl))
    | inl full ↦
        let size = ((chain.target_count - array_length) * 8 + 8) % 2 ^ 64 in
        let (held, _, outcome) = realloc_pointer-cases chain.overflow_block size w in
        rw full (elim outcome [
          | inr (refused, error, live, denied) ↦
              rw refused (held, inr (refl, refl, error, live, (ground arith, denied)))
          | inl (block, granted, quiet) ↦
              let (valid, list) = members_overflowing chain new block v (ground arith) in
              rw granted (held, inl (refl, valid, list, quiet))
        ])
  ]

  -- stumpless_add_target_to_chain on a valid chain puts the target behind the others, in the array
  -- or in the memory that grows, and leaves no error; or, only if the target is not a chain, or
  -- the array is full and the allocator refuses the memory, the chain stays as it was, an error is
  -- reported and nothing is allotted. The chain stays valid and the mutexes are given back.
  pub add_target_to_chain-members :
      (target : Target) (new : ℕ) (chain : ChainTarget) (w : World)
      → IsValid chain
      → let (done, chain', w') = stumpless_add_target_to_chain array_length target new chain w in
        IsValid chain'
        × (w'.held ≡ w.held)
        × (((is_chain target.type ≡ true)
              × (done ≡ true)
              × (members chain' ≡ members chain ++ new ∷ [])
              × (w'.error_valid ≡ false))
            ⊎ ((done ≡ false)
                × (chain' ≡ chain)
                × (w'.error_valid ≡ true)
                × (w'.live ≡ w.live)
                × ((target.type ≢ chain_target) ⊎ IsRefused chain w)))
  unfolding stumpless_add_target_to_chain
  add_target_to_chain-members target new chain w v =
      let w1 = lock_target target (clear_error w) in
      let w2 = lock_chain_target chain w1 in
      elim (Bool-cases (is_chain target.type)) [
        | inr other ↦ rw other (
          v,
          remove-cons_self target.mutex w.held,
          inr (refl, refl, refl, refl, inl (λ d. cc (other, ap is_chain d))),
        )
        | inl chained ↦
            let (held, outcome) = locked_add-members chain new w2 v in
            let back =
              ap (λ h. remove target.mutex (remove chain.chain_mutex h)) held
              ∙ ap (remove target.mutex)
                  (remove-cons_self chain.chain_mutex (target.mutex ∷ w.held))
              ∙ remove-cons_self target.mutex w.held in
            rw chained (elim outcome [
              | inl (added, valid, list, quiet) ↦ (valid, back, inl (refl, added, list, quiet))
              | inr (failed, same, error, live, why) ↦
                  (rw same v, back, inr (failed, same, error, live, inr why))
            ])
      ]

  pub length-members :
      (chain : ChainTarget) → IsValid chain → length (members chain) ≡ chain.target_count
  length-members chain v =
      let a = length-append (take chain.target_count chain.targets) chain.overflow_targets in
      let b = length-take chain.target_count chain.targets in
      elim v.counted [
        | inl (less, empty) ↦ omega (arith, a, b, v.whole, ap length empty)
        | inr e ↦ omega (arith, a, b, v.whole)
      ]

  -- A new chain holds no target, or there is none for want of memory.
  new_chain_target-members :
      (sizeof_chain chain_mutex : ℕ) (w : World)
      → 0 < array_length
      → let (made, w') = new_chain_target array_length sizeof_chain chain_mutex w in
        ((block : ℕ) × (chain : ChainTarget) × (made ≡ some (block, chain))
          × IsValid chain
          × (members chain ≡ [])
          × (w'.error_valid ≡ w.error_valid))
        ⊎ ((made ≡ none) × (w'.error_valid ≡ true) × (w'.live ≡ w.live))
  unfolding new_chain_target
  new_chain_target-members sizeof_chain chain_mutex w positive =
      let (_, _, outcome) = realloc_pointer-cases none sizeof_chain w in
      elim outcome [
        | inr (refused, error, live, _) ↦ rw (new_chain_target, refused) (inr (refl, error, live))
        | inl (block, granted, quiet) ↦
            rw (new_chain_target, granted)
              (inl (
                block,
                _,
                refl,
                record { whole = length-replicate array_length 0; counted = inl (positive, refl) },
                refl,
                quiet,
              ))
      ]

-- The length of a chain is the number of its targets.
get_chain_length-members :
    (array_length : ℕ) (target : Target) (chain : ChainTarget) (w : World)
    → IsValid array_length chain
    → is_chain target.type ≡ true
    → stumpless_get_chain_length (some target) (some chain) w
      ≡ (length (members chain), clear_error w)
unfolding stumpless_get_chain_length
get_chain_length-members array_length target chain w v chained = rw chained (
    ap₂ (λ n w'. (n, w')) (sym (length-members array_length chain v))
      (unlock-lock chain.chain_mutex (clear_error w)))
