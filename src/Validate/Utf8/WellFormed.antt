-- ===== src/Validate/Utf8/WellFormed.antt =====
-- What the checker of UTF-8 accepts, said without a decoder: characters of up to 21 bits in their
-- shortest form (RFC 3629 section 3), and at the end perhaps the beginning of one more.
use stumpless.Base.{ℕ, ◌+◌, ◌/◌, ◌%◌, ◌^◌, ◌≤◌, ◌<◌, ◌≡◌, [], ◌∷◌, ◌++◌, Bytes, ltb, if◌then◌else◌}

-- The bytes of a character: its bits in groups of six behind a lead byte.
abbrev pub encode : ℕ → Bytes
encode cp =
    if ltb cp 0x80
    then cp ∷ []
    else if ltb cp 0x800
    then (0xc0 + cp / 64) ∷ (0x80 + cp % 64) ∷ []
    else if ltb cp 0x10000
    then (0xe0 + cp / 4096) ∷ (0x80 + cp / 64 % 64) ∷ (0x80 + cp % 64) ∷ []
    else (0xf0 + cp / 262144)
      ∷ (0x80 + cp / 4096 % 64)
      ∷ (0x80 + cp / 64 % 64)
      ∷ (0x80 + cp % 64)
      ∷ []

abbrev pub IsContinuation : ℕ → Type 0
IsContinuation c = (128 ≤ c) × (c < 192)

-- The empty string, or a lead byte with fewer continuation bytes than it calls for.
abbrev pub IsCut : Bytes → Type 0
IsCut [] = Unit
IsCut (c ∷ []) = (192 ≤ c) × (c < 248)
IsCut (c ∷ d ∷ []) = (224 ≤ c) × (c < 248) × IsContinuation d
IsCut (c ∷ d ∷ e ∷ []) = (240 ≤ c) × (c < 248) × IsContinuation d × IsContinuation e
IsCut (c ∷ d ∷ e ∷ f ∷ s) = ⊥

pub data WellFormed : Bytes → Type 0 where
  cut : {s : Bytes} → IsCut s → WellFormed s
  char : {s t : Bytes} (cp : ℕ) → cp < 2 ^ 21 → s ≡ encode cp ++ t → WellFormed t → WellFormed s
