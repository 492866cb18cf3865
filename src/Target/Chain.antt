-- ===== src/Target/Chain.antt =====
-- src/target/chain.c: a target that hands each entry to other targets. The first of them stand in an
-- array of the length STUMPLESS_CHAIN_TARGET_ARRAY_LENGTH that the build sets, the others in memory
-- that grows. Targets are named by their blocks.
pub mod Members
pub mod Sending
use stumpless.Base.{
  ℕ, zero, suc, ◌+◌, ◌-◌, ◌*◌, ◌%◌, ◌^◌, [], ◌∷◌, ◌++◌, List, Bool, true, false, Option, none, some,
  length, get_or, set, replicate, ltb, leb, if◌then◌else◌,
}
use stumpless.Base.Int.{ℤ, pos, negsuc}
use stumpless.Error.{invalid_target_type_error_message, null_arg_error_message}
use stumpless.World.{
  World, alloc_mem, init_mutex, realloc_pointer, lock_mutex, unlock_mutex, clear_error,
  raise_argument_empty, raise_target_incompatible, raise_invalid_id,
}
use stumpless.Target.{Target, TargetType, chain_target, lock_target, unlock_target}

-- `struct chain_target`. What `targets` holds behind the targets in use is not read.
pub record ChainTarget : Type 0 where
  pub targets : List ℕ
  pub overflow_block : Option ℕ
  pub overflow_targets : List ℕ
  pub target_count : ℕ
  pub chain_mutex : ℕ

abbrev pub lock_chain_target : ChainTarget → World → World
lock_chain_target chain w = lock_mutex chain.chain_mutex w

abbrev pub unlock_chain_target : ChainTarget → World → World
unlock_chain_target chain w = unlock_mutex chain.chain_mutex w

abbrev pub is_chain : TargetType → Bool
is_chain chain_target = true
is_chain type = false

module _ (array_length : ℕ) where
  -- The block of the new struct, of `sizeof_chain` bytes, with its contents.
  unfoldable pub new_chain_target : ℕ → ℕ → World → Option (ℕ × ChainTarget) × World
  new_chain_target sizeof_chain chain_mutex w =
      let (target, w1) = alloc_mem sizeof_chain w in
      elim target [
        | none ↦ (none, w1)
        | some block ↦ (
          some (
            block,
            record {
              targets = replicate array_length 0;
              overflow_block = none;
              overflow_targets = [];
              target_count = 0;
              chain_mutex = chain_mutex;
            },
          ),
          init_mutex chain_mutex w1,
        )
      ]

  -- The part between the locks of the chain.
  pub locked_add : ChainTarget → ℕ → World → Bool × ChainTarget × World
  locked_add chain target w =
      let count = chain.target_count in
      let overflow_count = count - array_length in
      let (new_targets, w1) =
        realloc_pointer chain.overflow_block ((overflow_count * 8 + 8) % 2 ^ 64) w in
      let overflowing : Bool × ChainTarget × World = elim new_targets [
        | none ↦ (false, chain, w1)
        | some block ↦ (
          true,
          record chain {
            overflow_block = some block;
            overflow_targets = chain.overflow_targets ++ target ∷ [];
            target_count = count + 1;
          },
          w1,
        )
      ] in
      if leb array_length count then overflowing else (
        true,
        record chain { targets = set chain.targets count target; target_count = count + 1 },
        w,
      )

  -- Behind the tests for NULL; whether the chain is returned.
  pub stumpless_add_target_to_chain : Target → ℕ → ChainTarget → World → Bool × ChainTarget × World
  stumpless_add_target_to_chain target new chain w =
      let w1 = lock_target target (clear_error w) in
      let (done, chain', w2) = locked_add chain new (lock_chain_target chain w1) in
      if is_chain target.type
      then (done, chain', unlock_target target (unlock_chain_target chain w2))
      else (
        false,
        chain,
        unlock_target target (raise_target_incompatible invalid_target_type_error_message w1),
      )

  -- The target of the round `i`.
  abbrev pub sub_target : ChainTarget → ℕ → ℕ
  sub_target chain i =
      if ltb i array_length
      then get_or chain.targets i 0
      else get_or chain.overflow_targets (i - array_length) 0

  -- `rounds` rounds from `i` on; `send` is `stumpless_add_entry` with the entry.
  pub send_rounds : (ℕ → World → ℤ × World) → ChainTarget → ℕ → ℕ → ℤ → World → ℤ × World
  send_rounds send chain zero i final_result w = (final_result, w)
  send_rounds send chain (suc rounds) i final_result w =
      let (result, w1) = send (sub_target chain i) w in
      let next : ℤ = elim result [ pos n ↦ final_result | negsuc n ↦ negsuc n ] in
      send_rounds send chain rounds (i + 1) next w1

  pub send_entry_to_chain_target : (ℕ → World → ℤ × World) → ChainTarget → World → ℤ × World
  send_entry_to_chain_target send chain w =
      let (result, w1) =
        send_rounds send chain chain.target_count 0 (pos 1) (lock_chain_target chain w) in
      (result, unlock_chain_target chain w1)

-- `id` is what the chain keeps.
pub stumpless_get_chain_length : Option Target → Option ChainTarget → World → ℕ × World
stumpless_get_chain_length none id w = (0, raise_argument_empty (null_arg_error_message "chain") w)
stumpless_get_chain_length (some target) none w =
    if is_chain target.type
    then (0, raise_invalid_id w)
    else (0, raise_target_incompatible invalid_target_type_error_message w)
stumpless_get_chain_length (some target) (some chain) w =
    if is_chain target.type
    then (chain.target_count, unlock_chain_target chain (lock_chain_target chain (clear_error w)))
    else (0, raise_target_incompatible invalid_target_type_error_message w)
