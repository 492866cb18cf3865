-- ===== src/Tests/Chain.antt =====
-- A chain of src/target/chain.c with an array of one target.
use stumpless.Base.{
  ℕ, ◌≡◌, ◌≢◌, refl, [], ◌∷◌, true, false, none, some, ◌⊎◌, inr, codes, ◌==◌, if◌then◌else◌,
}
use stumpless.Base.Int.{ℤ, pos, negsuc}
use stumpless.World.{World}
use stumpless.Validate.Utf8.Accepted.{no_error}
use stumpless.Target.{Target, chain_target}
use stumpless.Target.Chain.{
  ChainTarget, lock_chain_target, unlock_chain_target, stumpless_add_target_to_chain,
  send_entry_to_chain_target,
}
use stumpless.Target.Chain.Members.{IsValid, IsRefused, members, add_target_to_chain-members}
use stumpless.Target.Chain.Sending.{send_all, send_entry_to_chain_target-send_all}

abbrev target : Target
target = record {
  block = 0;
  id = some 1;
  type = chain_target;
  name_block = 2;
  name = codes "all";
  name_length = 3;
  options = 0;
  default_prival = pos 14;
  default_app_name = codes "-";
  default_app_name_length = 1;
  default_msgid = codes "-";
  default_msgid_length = 1;
  mask = 255;
  filter = none;
  mutex = 3;
}

abbrev chain : ChainTarget
chain = record {
  targets = 6 ∷ [];
  overflow_block = some 5;
  overflow_targets = 7 ∷ 8 ∷ [];
  target_count = 3;
  chain_mutex = 4;
}

chain-IsValid : IsValid 1 chain
chain-IsValid = record { whole = refl; counted = inr refl }

add_target_to_chain-members_example :
    let (done, chain', w') = stumpless_add_target_to_chain 1 target 9 chain no_error in
    IsValid 1 chain'
    × (w'.held ≡ no_error.held)
    × (((true ≡ true)
          × (done ≡ true)
          × (members chain' ≡ 6 ∷ 7 ∷ 8 ∷ 9 ∷ [])
          × (w'.error_valid ≡ false))
        ⊎ ((done ≡ false)
            × (chain' ≡ chain)
            × (w'.error_valid ≡ true)
            × (w'.live ≡ no_error.live)
            × ((chain_target ≢ chain_target) ⊎ IsRefused 1 chain no_error)))
add_target_to_chain-members_example =
    add_target_to_chain-members 1 target 9 chain no_error chain-IsValid

-- The target 7 fails.
abbrev send : ℕ → World → ℤ × World
send sub w = (if sub == 7 then negsuc 0 else pos 1, w)

send_entry_to_chain_target-send_all_example : send_entry_to_chain_target 1 send chain no_error ≡ (
    let (result, w') = send_all send (6 ∷ 7 ∷ 8 ∷ []) (pos 1) (lock_chain_target chain no_error) in
    (result, unlock_chain_target chain w'))
send_entry_to_chain_target-send_all_example =
    send_entry_to_chain_target-send_all 1 send chain no_error chain-IsValid
