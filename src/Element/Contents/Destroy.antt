-- ===== src/Element/Contents/Destroy.antt =====
-- What destroying an element and its params gives back (src/element.c).
use stumpless.Base.{
  ℕ, ◌-◌, ◌≡◌, refl, ◌∙◌, [], ◌∷◌, ◌++◌, List, inl, inr, none, some, Option-cases, arith,
}
use stumpless.World.{World, remove}
use stumpless.World.Balance.{occurrences, occurrences-append, occurrences-remove, Owns}
use stumpless.Param.{Param, stumpless_destroy_param}
use stumpless.Element.{Element, unchecked_destroy_element, unchecked_unload_element}
use stumpless.Element.Contents.{destroy_params, stumpless_destroy_element_and_contents}

-- The blocks and mutexes that params own.
abbrev pub param_blocks : List Param → List ℕ
param_blocks [] = []
param_blocks (p ∷ ps) = p.value_block ∷ p.block ∷ param_blocks ps

abbrev pub param_mutexes : List Param → List ℕ
param_mutexes [] = []
param_mutexes (p ∷ ps) = p.mutex ∷ param_mutexes ps

destroy_params-occurrences :
    (ps : List Param) (a : ℕ) (w : World)
    → (occurrences a (destroy_params ps w).live
        ≡ occurrences a w.live - occurrences a (param_blocks ps))
      × (occurrences a (destroy_params ps w).mutexes
          ≡ occurrences a w.mutexes - occurrences a (param_mutexes ps))
      × ((destroy_params ps w).held ≡ w.held)
      × ((destroy_params ps w).error_valid ≡ w.error_valid)
unfolding destroy_params stumpless_destroy_param
destroy_params-occurrences [] a w = (omega arith, omega arith, refl, refl)
destroy_params-occurrences (p ∷ ps) a w =
    let w1 = stumpless_destroy_param (some p) w in
    let (live, mutexes, held, error) = destroy_params-occurrences ps a w1 in
    let first = occurrences-remove a p.value_block (remove p.mutex w.live) in
    (
      omega (
        arith,
        live,
        occurrences-remove a p.block (remove p.value_block w.live),
        occurrences-remove a p.value_block w.live,
      ),
      omega (arith, mutexes, occurrences-remove a p.mutex w.mutexes),
      held,
      error,
    )

-- Destroying params that were made, after whatever else was, leaves the rest.
pub destroy_params-Owns :
    (ps : List Param) (blocks mutexes : List ℕ) (w w1 : World)
    → Owns (param_blocks ps ++ blocks) (param_mutexes ps ++ mutexes) w w1
    → Owns blocks mutexes w (destroy_params ps w1)
destroy_params-Owns ps blocks mutexes w w1 (live, locks, held) = (
  λ a. omega (
    arith,
    (destroy_params-occurrences ps a w1).0,
    live a,
    occurrences-append a (param_blocks ps) blocks,
  ),
  λ a. omega (
    arith,
    (destroy_params-occurrences ps a w1).1,
    locks a,
    occurrences-append a (param_mutexes ps) mutexes,
  ),
  (destroy_params-occurrences ps 0 w1).2 ∙ held,
)

-- The blocks of an element itself: the struct and the array of params.
abbrev pub element_blocks : Element → List ℕ
element_blocks e = elim e.params_block [ none ↦ e.block ∷ [] | some block ↦ e.block ∷ block ∷ [] ]

unchecked_destroy_element-occurrences :
    (e : Element) (a : ℕ) (w : World)
    → (occurrences a (unchecked_destroy_element e w).live
        ≡ occurrences a w.live - occurrences a (element_blocks e))
      × (occurrences a (unchecked_destroy_element e w).mutexes
          ≡ occurrences a w.mutexes - occurrences a (e.mutex ∷ []))
      × ((unchecked_destroy_element e w).held ≡ w.held)
      × ((unchecked_destroy_element e w).error_valid ≡ w.error_valid)
unfolding unchecked_destroy_element unchecked_unload_element
unchecked_destroy_element-occurrences e a w =
    let mutex = occurrences-remove a e.mutex w.mutexes in
    elim (Option-cases e.params_block) [
      | inl missing ↦
          rw missing
            (omega (arith, occurrences-remove a e.block w.live), omega (arith, mutex), refl, refl)
      | inr (block, given) ↦ rw given (
        omega (
          arith,
          occurrences-remove a e.block (remove block w.live),
          occurrences-remove a block w.live,
        ),
        omega (arith, mutex),
        refl,
        refl,
      )
    ]

pub unchecked_destroy_element-Owns :
    (e : Element) (blocks mutexes : List ℕ) (w w1 : World)
    → Owns (element_blocks e ++ blocks) (e.mutex ∷ mutexes) w w1
    → Owns blocks mutexes w (unchecked_destroy_element e w1)
unchecked_destroy_element-Owns e blocks mutexes w w1 (live, locks, held) = (
  λ a. omega (
    arith,
    (unchecked_destroy_element-occurrences e a w1).0,
    live a,
    occurrences-append a (element_blocks e) blocks,
  ),
  λ a. omega (arith, (unchecked_destroy_element-occurrences e a w1).1, locks a),
  (unchecked_destroy_element-occurrences e 0 w1).2 ∙ held,
)

pub destroy_element_and_contents-Owns :
    (e : Element) (ps : List Param) (blocks mutexes : List ℕ) (w w1 : World)
    → Owns
        (param_blocks ps ++ (element_blocks e ++ blocks))
        (param_mutexes ps ++ (e.mutex ∷ mutexes))
        w
        w1
    → Owns blocks mutexes w (stumpless_destroy_element_and_contents (some (e, ps)) w1)
unfolding stumpless_destroy_element_and_contents
destroy_element_and_contents-Owns e ps blocks mutexes w w1 owned =
    unchecked_destroy_element-Owns e blocks mutexes w (destroy_params ps w1)
      (destroy_params-Owns ps (element_blocks e ++ blocks) (e.mutex ∷ mutexes) w w1 owned)

pub destroy_element_and_contents-error :
    (e : Element) (ps : List Param) (w : World)
    → (stumpless_destroy_element_and_contents (some (e, ps)) w).error_valid ≡ w.error_valid
unfolding stumpless_destroy_element_and_contents
destroy_element_and_contents-error e ps w =
    (unchecked_destroy_element-occurrences e 0 (destroy_params ps w)).3
    ∙ (destroy_params-occurrences ps 0 w).3
