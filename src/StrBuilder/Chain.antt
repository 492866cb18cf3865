-- ===== src/StrBuilder/Chain.antt =====
-- Appending calls one after the other, as in `builder = strbuilder_append_x( builder, ... )`: a
-- builder that could not grow is NULL from then on.
use stumpless.Base.{
  ℕ, ◌+◌, ◌≤◌, ◌≡◌, refl, ap, ◌∙◌, sym, [], ◌∷◌, ◌++◌, Bytes, Bool, false, ◌⊎◌, inl, inr, Option,
  none, some, append_assoc, append-nil, ◌*◌, length, length-append, length-take, arith,
}
use stumpless.Base.Int.{pos}
use stumpless.World.{World}
use stumpless.StrBuilder.{
  StrBuilder, append_buffer, append_char, append_string, on_builder, strbuilder_append_buffer,
  strbuilder_append_char, strbuilder_append_string, strbuilder_append_positive_int,
  strbuilder_get_buffer,
}
use stumpless.StrBuilder.Growth.{IsValid, IsBounded, OutOfMemory}
use stumpless.StrBuilder.Text.{
  Appends, append_buffer-Appends, append_char-Appends, append_string-Appends,
}
use stumpless.StrBuilder.Decimal.{decimal, append_positive_int-decimal, append_positive_int-none}

-- A call on a builder that may be NULL.
abbrev pub Writer : Type 0
Writer = Option StrBuilder → World → Option StrBuilder × World

infixr 4 ◌⨾◌
abbrev pub ◌⨾◌ : Writer → Writer → Writer
(f ⨾ g) builder w = let (builder', w') = f builder w in g builder' w'

-- The allocator refuses some request of at most `limit` bytes.
abbrev pub Refused : (ℕ → ℕ → Bool) → ℕ → Type 0
Refused malloc limit = (n : ℕ) × (amount : ℕ) × (amount ≤ limit) × (malloc n amount ≡ false)

length-get_buffer : (b : StrBuilder) → IsValid b → length (strbuilder_get_buffer b) ≡ b.position
unfolding strbuilder_get_buffer
length-get_buffer b v = omega (arith, length-take b.position b.storage, v.inside)

-- What a call gives that appends `bytes` to a valid builder: the builder with them behind its text and
-- no error; or NULL, because memory ran out, and then the allocator refused a request of at most twice
-- the text that was to be held.
abbrev pub Written : Bytes → StrBuilder → World → Option StrBuilder × World → Type 0
Written bytes b w (result, w') =
    (w'.malloc ≡ w.malloc)
    × (((b' : StrBuilder) × (result ≡ some b')
          × IsValid b'
          × (strbuilder_get_buffer b' ≡ strbuilder_get_buffer b ++ bytes)
          × (w'.error_valid ≡ w.error_valid))
        ⊎ ((result ≡ none)
            × OutOfMemory w'
            × Refused w.malloc (2 * (length (strbuilder_get_buffer b) + length bytes))))

-- A writer of `bytes`: NULL stays NULL and nothing else happens.
pub record Writes (bytes : Bytes) (f : Writer) : Type 0 where
  pub on_null : (w : World) → f none w ≡ (none, w)
  pub on_valid :
      (b : StrBuilder) (w : World)
      → IsValid b
      → IsBounded w.malloc
      → Written bytes b w (f (some b) w)

pub Writes-⨾ :
    {xs ys : Bytes} {f g : Writer} → Writes xs f → Writes ys g → Writes (xs ++ ys) (f ⨾ g)
Writes-⨾ {xs} {ys} {f} {g} p q = record {
  on_null = λ w. rw (p.on_null w) (q.on_null w);
  on_valid = λ b w v bounded.
      let (kept, first) = p.on_valid b w v bounded in
      elim first [
        | inr (null, oom, (n, amount, le, denied)) ↦
            rw (◌⨾◌, null, q.on_null)
              (kept, inr (refl, oom, (n, amount, omega (arith, le, length-append xs ys), denied)))
        | inl (b1, e, v1, text, error) ↦
            let (kept', second) = q.on_valid b1 (f (some b) w).1 v1 (rw kept bounded) in
            rw (◌⨾◌, e)
              (
                kept' ∙ kept,
                elim second [
                  | inr (null, oom, (n, amount, le, denied)) ↦ inr (
                    null,
                    oom,
                    (
                      n,
                      amount,
                      omega (
                        arith,
                        le,
                        ap length text,
                        length-append (strbuilder_get_buffer b) xs,
                        length-append xs ys,
                      ),
                      rw kept at denied,
                    ),
                  )
                  | inl (b2, d, v2, text', error') ↦ inl (
                    b2,
                    d,
                    v2,
                    text' ∙ ap (λ t. t ++ ys) text ∙ append_assoc (strbuilder_get_buffer b) xs ys,
                    error' ∙ error,
                  )
                ],
              )
      ];
}

-- The step from the calls on a builder to those on a pointer to one.
on_builder-Writes :
    (bytes : Bytes) (f : StrBuilder → World → Bool × StrBuilder × World)
    → ((b : StrBuilder) (w : World) → IsValid b → IsBounded w.malloc → Appends b bytes w (f b w))
    → Writes bytes (on_builder f)
on_builder-Writes bytes f appends = record {
  on_null = λ w. refl;
  on_valid = λ b w v bounded.
      let (v', kept, outcome) = appends b w v bounded in
      elim outcome [
        | inl (done, text, _, error) ↦ rw done (kept, inl ((f b w).1, refl, v', text, error))
        | inr (failed, oom, (n, amount, le, denied)) ↦
            rw failed
              (kept, inr (refl, oom, (n, amount, omega (arith, le, length-get_buffer b v), denied)))
      ];
}

pub append_buffer-Writes :
    (bytes : Bytes) → Writes bytes (λ builder w. strbuilder_append_buffer builder (some bytes) w)
unfolding strbuilder_append_buffer
append_buffer-Writes bytes =
    on_builder-Writes bytes (λ b. append_buffer b bytes)
      (λ b w v k. append_buffer-Appends b bytes w v k)

pub append_char-Writes : (c : ℕ) → Writes (c ∷ []) (λ builder w. strbuilder_append_char builder c w)
unfolding strbuilder_append_char
append_char-Writes c =
    on_builder-Writes (c ∷ []) (λ b. append_char b c) (λ b w v k. append_char-Appends b c w v k)

pub append_string-Writes :
    (bytes : Bytes) → Writes bytes (λ builder w. strbuilder_append_string builder bytes w)
unfolding strbuilder_append_string
append_string-Writes bytes =
    on_builder-Writes bytes (λ b. append_string b bytes)
      (λ b w v k. append_string-Appends b bytes w v k)

pub positive_int-Writes :
    (n : ℕ) → Writes (decimal n) (λ builder w. strbuilder_append_positive_int builder (pos n) w)
unfolding strbuilder_append_string
positive_int-Writes n = record {
  on_null = append_positive_int-none n;
  on_valid = λ b w v bounded.
      rw (append_positive_int-decimal b n w)
        ((append_string-Writes (decimal n)).on_valid b w v bounded);
}

-- The same bytes, otherwise said.
pub Writes-same : {xs ys : Bytes} {f : Writer} → Writes xs f → xs ≡ ys → Writes ys f
Writes-same p e = rw (sym e) p

pub Writes-nothing : Writes [] (λ builder w. (builder, w))
Writes-nothing = record {
  on_null = λ w. refl;
  on_valid =
      λ b w v bounded. (refl, inl (b, refl, v, sym (append-nil (strbuilder_get_buffer b)), refl));
}
