-- ===== src/Target/Life/Pairs.antt =====
-- The functions that open a target and those that close it (src/target/).
use stumpless.Base.{ℕ, ◌≡◌, refl, ap, ◌∷◌, List, Bytes, ◌⊎◌, inl, inr, Option, none, some, map, set}
use stumpless.Base.Int.{ℤ}
use stumpless.World.{World, clear_error}
use stumpless.World.Balance.{IsBalanced, alloc_mem-effects}
use stumpless.Target.{buffer_target, chain_target, function_target, stream_target}
use stumpless.Target.Buffer.{BufferTarget, new_buffer_target}
use stumpless.Target.Chain.{ChainTarget, new_chain_target, is_chain}
use stumpless.Target.Stream.{StreamTarget, new_stream_target, clear_codes, is_stream}
use stumpless.Target.Life.{
  is_buffer_target, is_function_target, stumpless_open_buffer_target,
  stumpless_open_function_target, stumpless_open_stream_target, stumpless_new_chain,
  stumpless_close_buffer_target, stumpless_close_function_target, stumpless_close_stream_target,
  stumpless_close_chain_only, overflow_blocks, no_blocks, buffer_mutexes, stream_mutexes,
  chain_mutexes,
}
use stumpless.Target.Life.Open.{Opens, open_with-Opens, close_target-Opens}

-- An empty buffer of the caller.
abbrev pub IsEmptyBuffer : Bytes → ℕ → BufferTarget → Type 0
IsEmptyBuffer buffer size b =
    (b.buffer ≡ buffer) × (b.size ≡ size) × (b.read_position ≡ 0) × (b.write_position ≡ 0)

-- A stream without colors: the first byte of every code is its NUL.
abbrev pub IsPlainStream : List Bytes → ℕ → StreamTarget → Type 0
IsPlainStream content stream s =
    (s.stream ≡ stream) × (s.escape_codes ≡ map (λ code. set code 0 0) content)

abbrev pub IsEmptyChain : ChainTarget → Type 0
IsEmptyChain c = (c.target_count ≡ 0) × (c.overflow_block ≡ none)

-- What closing leaves of opening.
abbrev pub IsClosed : {A : Type 0} → World → Option A → Option ℕ × World → Type 0
IsClosed w r closed = IsBalanced w closed.1 × ((r ≡ none) ⊎ (closed.0 ≡ none))

module _ (sizeof_target default_options : ℕ) (default_prival : ℤ) (sizeof_id mutex : ℕ)
    (name : Bytes) (current : Option ℕ) (w : World) where
  open_buffer :
      (buffer : Bytes) (size : ℕ)
      → Opens (IsEmptyBuffer buffer size) buffer_mutexes buffer_target name w (
          stumpless_open_buffer_target sizeof_target default_options default_prival sizeof_id mutex
            (some name)
            (some buffer)
            size
            (current, w))
  unfolding stumpless_open_buffer_target new_buffer_target
  open_buffer buffer size =
      open_with-Opens sizeof_target default_options default_prival (IsEmptyBuffer buffer size)
        buffer_mutexes buffer_target name (new_buffer_target sizeof_id buffer size mutex) current w
        λ w1.
          let (locks, held, _, outcome) = alloc_mem-effects sizeof_id w1 in
          elim outcome [
            | inl (_, r, live, _) ↦
                rw (new_buffer_target, r)
                  (
                    held,
                    inl (_, _, refl, (refl, refl, refl, refl), live, ap (λ m. mutex ∷ m) locks),
                  )
            | inr (denied, r, live, oom) ↦
                rw (new_buffer_target, r) (held, inr (refl, live, locks, oom, (_, denied)))
          ]

  open_function :
      (log_function : ℕ)
      → Opens
          (λ l. l ≡ log_function)
          no_blocks
          function_target
          name
          w
          (stumpless_open_function_target sizeof_target default_options default_prival sizeof_id
            (some name)
            (some log_function)
            (current, w))
  unfolding stumpless_open_function_target
  open_function log_function =
      open_with-Opens sizeof_target default_options default_prival (λ l. l ≡ log_function) no_blocks
        function_target name _ current w
        λ w1.
          let (locks, held, _, outcome) = alloc_mem-effects sizeof_id w1 in
          elim outcome [
            | inl (_, r, live, _) ↦ rw r (held, inl (_, _, refl, refl, live, locks))
            | inr (denied, r, live, oom) ↦ rw r (held, inr (refl, live, locks, oom, (_, denied)))
          ]

  open_stream :
      (content : List Bytes) (stream : ℕ)
      → Opens (IsPlainStream content stream) stream_mutexes stream_target name w (
          stumpless_open_stream_target sizeof_target default_options default_prival sizeof_id
            content mutex
            (some name)
            (some stream)
            (current, w))
  unfolding stumpless_open_stream_target new_stream_target clear_codes
  open_stream content stream =
      open_with-Opens sizeof_target default_options default_prival (IsPlainStream content stream)
        stream_mutexes stream_target name _ current (clear_error w)
        λ w1.
          let (locks, held, _, outcome) = alloc_mem-effects sizeof_id w1 in
          elim outcome [
            | inl (_, r, live, _) ↦
                rw (new_stream_target, r)
                  (held, inl (_, _, refl, (refl, refl), live, ap (λ m. mutex ∷ m) locks))
            | inr (denied, r, live, oom) ↦
                rw (new_stream_target, r) (held, inr (refl, live, locks, oom, (_, denied)))
          ]

  new_chain :
      (array_length : ℕ)
      → Opens IsEmptyChain chain_mutexes chain_target name w (
          stumpless_new_chain sizeof_target default_options default_prival array_length sizeof_id
            mutex
            (some name)
            (current, w))
  unfolding stumpless_new_chain new_chain_target
  new_chain array_length =
      open_with-Opens sizeof_target default_options default_prival IsEmptyChain chain_mutexes
        chain_target name (new_chain_target array_length sizeof_id mutex) current w
        λ w1.
          let (locks, held, _, outcome) = alloc_mem-effects sizeof_id w1 in
          elim outcome [
            | inl (_, r, live, _) ↦
                rw (new_chain_target, r)
                  (held, inl (_, _, refl, (refl, refl), live, ap (λ m. mutex ∷ m) locks))
            | inr (denied, r, live, oom) ↦
                rw (new_chain_target, r) (held, inr (refl, live, locks, oom, (_, denied)))
          ]

  -- Opening a buffer, function, stream or chain target with a name makes a target of that type and
  -- name with an empty buffer, the function, a stream without colors or an empty chain in one
  -- block of its own, and makes it the current target, with two blocks and a mutex more, besides
  -- the mutex inside a buffer, stream or chain target, and no error; or it gives NULL, everything
  -- taken on the way is given back and an error is reported, and then a request for memory or for
  -- a mutex is refused.
  pub open_target-Opens :
      (buffer : Bytes) (size log_function stream array_length : ℕ) (content : List Bytes)
      → Opens (IsEmptyBuffer buffer size) buffer_mutexes buffer_target name w (
          stumpless_open_buffer_target sizeof_target default_options default_prival sizeof_id mutex
            (some name)
            (some buffer)
            size
            (current, w))
        × Opens
            (λ l. l ≡ log_function)
            no_blocks
            function_target
            name
            w
            (stumpless_open_function_target sizeof_target default_options default_prival sizeof_id
              (some name)
              (some log_function)
              (current, w))
        × Opens (IsPlainStream content stream) stream_mutexes stream_target name w (
            stumpless_open_stream_target sizeof_target default_options default_prival sizeof_id
              content mutex
              (some name)
              (some stream)
              (current, w))
        × Opens IsEmptyChain chain_mutexes chain_target name w (
            stumpless_new_chain sizeof_target default_options default_prival array_length sizeof_id
              mutex
              (some name)
              (current, w))
  open_target-Opens buffer size log_function stream array_length content = (
    open_buffer buffer size,
    open_function log_function,
    open_stream content stream,
    new_chain array_length,
  )

  -- Closing a buffer, function, stream or chain target that was opened, or failed to be, leaves
  -- every block, every mutex, also those inside the structs, and every lock as it was, up to the
  -- order in which they were made, and a target that was opened is no longer the current one.
  pub close-open :
      (buffer : Bytes) (size log_function stream array_length : ℕ) (content : List Bytes)
      → let (b, s1) =
          stumpless_open_buffer_target sizeof_target default_options default_prival sizeof_id mutex
            (some name)
            (some buffer)
            size
            (current, w) in
        let (f, s2) =
          stumpless_open_function_target sizeof_target default_options default_prival sizeof_id
            (some name)
            (some log_function)
            (current, w) in
        let (s, s3) =
          stumpless_open_stream_target sizeof_target default_options default_prival sizeof_id
            content mutex
            (some name)
            (some stream)
            (current, w) in
        let (c, s4) =
          stumpless_new_chain sizeof_target default_options default_prival array_length sizeof_id
            mutex
            (some name)
            (current, w) in
        IsClosed w b (stumpless_close_buffer_target b s1)
        × IsClosed w f (stumpless_close_function_target f s2)
        × IsClosed w s (stumpless_close_stream_target s s3)
        × IsClosed w c (stumpless_close_chain_only c s4)
  unfolding stumpless_close_buffer_target stumpless_close_function_target
      stumpless_close_stream_target stumpless_close_chain_only
  close-open buffer size log_function stream array_length content = (
    close_target-Opens (IsEmptyBuffer buffer size) buffer_mutexes no_blocks buffer_target name
        is_buffer_target w _ _ refl (λ a p. refl) (open_buffer buffer size),
    close_target-Opens (λ l. l ≡ log_function) no_blocks no_blocks function_target name
        is_function_target w _ _ refl (λ a p. refl) (open_function log_function),
    close_target-Opens (IsPlainStream content stream) stream_mutexes no_blocks stream_target name
        is_stream w _ _ refl (λ a p. refl) (open_stream content stream),
    close_target-Opens IsEmptyChain chain_mutexes overflow_blocks chain_target name is_chain w _ _
        refl (λ a p. rw p.1 refl) (new_chain array_length),
  )
