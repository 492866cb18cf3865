-- ===== src/Target/Chain/Sending.antt =====
-- How a chain sends an entry (src/target/chain.c).
use stumpless.Base.{
  ℕ, zero, suc, ◌+◌, ◌-◌, ◌<◌, ◌≤◌, ◌≡◌, refl, ap, ◌∙◌, sym, [], ◌∷◌, ◌++◌, List, inl, inr, length,
  length-append, length-take, append_assoc, get_or, take, ltb, Bool-cases, arith,
}
use stumpless.Base.Int.{ℤ, pos, negsuc}
use stumpless.World.{World}
use stumpless.Target.Chain.{
  ChainTarget, lock_chain_target, unlock_chain_target, sub_target, send_rounds,
  send_entry_to_chain_target,
}
use stumpless.Target.Chain.Members.{members, IsValid, length-members}

get_or-left : (xs ys : List ℕ) (i : ℕ) → i < length xs → get_or (xs ++ ys) i 0 ≡ get_or xs i 0
get_or-left [] ys i h = absurd (omega arith)
get_or-left (x ∷ xs) ys zero h = refl
get_or-left (x ∷ xs) ys (suc i) h = get_or-left xs ys i (omega arith)

get_or-right :
    (xs ys : List ℕ) (i : ℕ) → length xs ≤ i → get_or (xs ++ ys) i 0 ≡ get_or ys (i - length xs) 0
get_or-right [] ys i h = ap (λ n. get_or ys n 0) (omega arith)
get_or-right (x ∷ xs) ys zero h = absurd (omega arith)
get_or-right (x ∷ xs) ys (suc i) h =
    get_or-right xs ys i (omega arith) ∙ ap (λ n. get_or ys n 0) (omega arith)

get_or-take : (n : ℕ) (xs : List ℕ) (i : ℕ) → i < n → get_or (take n xs) i 0 ≡ get_or xs i 0
get_or-take zero xs i h = absurd (omega arith)
get_or-take (suc n) [] i h = refl
get_or-take (suc n) (x ∷ xs) zero h = refl
get_or-take (suc n) (x ∷ xs) (suc i) h = get_or-take n xs i (omega arith)

-- The entry to each of the targets, in their order and whatever the others gave. The result is the
-- last failure, or what it was before.
abbrev pub send_all : (ℕ → World → ℤ × World) → List ℕ → ℤ → World → ℤ × World
send_all send [] final_result w = (final_result, w)
send_all send (target ∷ targets) final_result w =
    let (result, w1) = send target w in
    send_all send targets (elim result [ pos n ↦ final_result | negsuc n ↦ negsuc n ]) w1

module _ (array_length : ℕ) where
  sub_target-members :
      (chain : ChainTarget) (i : ℕ)
      → IsValid array_length chain
      → i < chain.target_count
      → sub_target array_length chain i ≡ get_or (members chain) i 0
  sub_target-members chain i v h =
      let front = take chain.target_count chain.targets in
      let b = length-take chain.target_count chain.targets in
      elim (Bool-cases (ltb i array_length)) [
        | inl inside ↦
            let small : i < array_length = ground arith in
            rw inside (
              sym (
                get_or-left front chain.overflow_targets i (omega (arith, b, v.whole))
                ∙ get_or-take chain.target_count chain.targets i h))
        | inr behind ↦
            let big : array_length ≤ i = ground arith in
            let len : length front ≡ array_length = omega (arith, b, v.whole) in
            rw behind (
              sym (
                get_or-right front chain.overflow_targets i (omega (arith, len))
                ∙ ap (λ n. get_or chain.overflow_targets (i - n) 0) len))
      ]

  send_rounds-send_all :
      (send : ℕ → World → ℤ × World) (chain : ChainTarget) (before rest : List ℕ) (result : ℤ)
      (w : World)
      → IsValid array_length chain
      → members chain ≡ before ++ rest
      → send_rounds array_length send chain (length rest) (length before) result w
        ≡ send_all send rest result w
  unfolding send_rounds
  send_rounds-send_all send chain before [] result w v e = refl
  send_rounds-send_all send chain before (t ∷ rest) result w v e =
      let len = length-members array_length chain v in
      let parts = length-append before (t ∷ rest) in
      let whole = ap length e in
      let this : sub_target array_length chain (length before) ≡ t =
        sub_target-members chain (length before) v (omega arith)
        ∙ ap (λ m. get_or m (length before) 0) e
        ∙ get_or-right before (t ∷ rest) (length before) (omega arith)
        ∙ ap (λ n. get_or (t ∷ rest) n 0) {y = 0} (omega arith) in
      let (r, w1) = send t w in
      let next : ℤ = elim r [ pos n ↦ result | negsuc n ↦ negsuc n ] in
      let more =
        send_rounds-send_all send chain (before ++ t ∷ []) rest next w1 v
          (e ∙ sym (append_assoc before (t ∷ []) rest)) in
      let index : length (before ++ t ∷ []) ≡ length before + 1 = length-append before (t ∷ []) in
      rw (send_rounds, this) (rw index at more)

  -- send_entry_to_chain_target on a valid chain sends the entry to each of its targets once, in
  -- their order, those in the array first, whatever the others gave; it gives the last failure, or
  -- 1.
  pub send_entry_to_chain_target-send_all :
      (send : ℕ → World → ℤ × World) (chain : ChainTarget) (w : World)
      → IsValid array_length chain
      → send_entry_to_chain_target array_length send chain w ≡ (
          let (result, w') = send_all send (members chain) (pos 1) (lock_chain_target chain w) in
          (result, unlock_chain_target chain w'))
  unfolding send_entry_to_chain_target
  send_entry_to_chain_target-send_all send chain w v =
      let all =
        send_rounds-send_all send chain [] (members chain) (pos 1) (lock_chain_target chain w) v
          refl in
      let count = length-members array_length chain v in
      let run : send_rounds array_length send chain chain.target_count 0 (pos 1)
            (lock_chain_target chain w)
          ≡ send_all send (members chain) (pos 1) (lock_chain_target chain w) =
        ap (λ n. send_rounds array_length send chain n 0 (pos 1) (lock_chain_target chain w))
          (sym count)
        ∙ all in
      ap (λ p. (p.0, unlock_chain_target chain p.1)) run
