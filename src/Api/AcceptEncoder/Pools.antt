-- ===== src/Api/AcceptEncoder/Pools.antt =====
-- api/acceptencoder/acceptencoder.go: compressors of a level, their pools, and writing with them.
pub mod Levels
use tick_framework.Base.{
  ℕ, zero, suc, ◌≡◌, ◌⊎◌, inl, inr, refl, sym, ◌∙◌, ap, subst, Bool, true, false, List, [], ◌∷◌,
  Option, none, some, Bytes, take, lookup, length, ltb, ◌==◌, ◌||◌, not, ==_iff, Bool-cases,
  Option-cases, if◌then◌else◌, Res, ok, fail, panic, All, arith,
}
use tick_framework.Api.AcceptEncoder.{
  Settings, Encoder, none_encoder, gzip_encoder, deflate_encoder, encoder_name, encoder_map,
  best_speed, best_compression,
}

-- `nopResetWriter`, and a writer of an encoder with a level
pub data ResetWriter : Type 0 where
  nop_reset_writer : ResetWriter
  level_writer : Encoder → ℕ → ResetWriter

-- The two pools of an encoder.
pub record EncoderPools : Type 0 where
  pub custom : List ResetWriter
  pub best : List ResetWriter

abbrev pub no_writers : EncoderPools
no_writers = record { custom = []; best = [] }

-- The pools of all encoders; `noneCompressEncoder` has none.
pub record Pools : Type 0 where
  pub gzip : EncoderPools
  pub deflate : EncoderPools

-- `Get` of a `sync.Pool` takes any of its items, or it makes a new one.
unfoldable pub pool_get : ℕ → ResetWriter → List ResetWriter → ResetWriter × List ResetWriter
pool_get pick new [] = (new, [])
pool_get zero new (w ∷ ws) = (w, ws)
pool_get (suc pick) new (w ∷ ws) = let (taken, rest) = pool_get pick new ws in (taken, w ∷ rest)

-- `encode` of an encoder that has pools
unfoldable pub encode_pooled :
    Settings → Encoder → ℕ → ℕ → EncoderPools → ResetWriter × EncoderPools
encode_pooled settings e pick level pools =
    let (w, custom) = pool_get pick (level_writer e settings.gzip_compress_level) pools.custom in
    let (w', best) = pool_get pick (level_writer e best_compression) pools.best in
    if level == best_speed
    then (w, record pools { custom = custom })
    else if level == best_compression
    then (w', record pools { best = best })
    else (level_writer e level, pools)

-- `put` of an encoder that has pools
unfoldable pub put_pooled : Settings → ResetWriter → ℕ → EncoderPools → EncoderPools
put_pooled settings w level pools =
    if level == settings.gzip_compress_level
    then record pools { custom = w ∷ pools.custom }
    else if level == best_compression
    then record pools { best = w ∷ pools.best }
    else pools

unfoldable pub encode : Settings → Encoder → ℕ → ℕ → Pools → ResetWriter × Pools
encode settings none_encoder pick level pools = (nop_reset_writer, pools)
encode settings gzip_encoder pick level pools =
    let (w, rest) = encode_pooled settings gzip_encoder pick level pools.gzip in
    (w, record pools { gzip = rest })
encode settings deflate_encoder pick level pools =
    let (w, rest) = encode_pooled settings deflate_encoder pick level pools.deflate in
    (w, record pools { deflate = rest })

unfoldable pub put : Settings → Encoder → ResetWriter → ℕ → Pools → Pools
put settings none_encoder w level pools = pools
put settings gzip_encoder w level pools = record pools {
  gzip = put_pooled settings w level pools.gzip;
}
put settings deflate_encoder w level pools = record pools {
  deflate = put_pooled settings w level pools.deflate;
}

unfoldable pub encoder_of : Bytes → Encoder
encoder_of encoding = elim (lookup encoding encoder_map) [ none ↦ none_encoder | some e ↦ e ]

-- How the `Close` of a compressor ends: `some n` is a failure when `n` bytes of its output are at the
-- response.
abbrev pub cut : Option ℕ → Bytes → Bytes
cut none output = output
cut (some n) output = take n output

-- What a writer has written to the response when it is closed; what the compressors of the Go
-- library make of a content is a parameter. `nopResetWriter` has no `Close`.
unfoldable pub written : (Encoder → ℕ → Bytes → Bytes) → Option ℕ → ResetWriter → Bytes → Bytes
written compress close nop_reset_writer content = content
written compress close (level_writer e level) content = cut close (compress e level content)

abbrev is_named : Bytes → Bool
is_named [] = false
is_named (c ∷ name) = true

-- `writeLevel`: the content that `io.Copy` reads and passes on without an error, or its error; the
-- error of `Close` is dropped. The result has the bytes written, too.
unfoldable pub write_level :
    {E : Type 0}
    → (Encoder → ℕ → Bytes → Bytes)
    → Option ℕ
    → Settings
    → ℕ
    → Bytes
    → ℕ
    → Res E Bytes
    → Pools
    → Res E (Bool × Bytes × Bytes) × Pools
write_level compress close settings pick encoding level content pools =
    let e = encoder_of encoding in
    let (w, taken) = encode settings e pick level pools in
    let after = put settings e w level taken in
    elim content [
      | ok b ↦ (ok (is_named (encoder_name e), encoder_name e, written compress close w b), after)
      | fail x ↦ (fail x, after)
      | panic ↦ (panic, after)
    ]

-- `WriteFile`
unfoldable pub write_file :
    {E : Type 0}
    → (Encoder → ℕ → Bytes → Bytes)
    → Option ℕ
    → Settings
    → ℕ
    → Bytes
    → Res E Bytes
    → Pools
    → Res E (Bool × Bytes × Bytes) × Pools
write_file compress close settings pick encoding content pools =
    write_level compress close settings pick encoding best_compression content pools

-- `WriteBody`
unfoldable pub write_body :
    {E : Type 0}
    → (Encoder → ℕ → Bytes → Bytes)
    → Option ℕ
    → Settings
    → ℕ
    → Bytes
    → Bytes
    → Pools
    → Res E (Bool × Bytes × Bytes) × Pools
write_body compress close settings pick encoding content pools =
    if not (is_named encoding) || ltb (length content) settings.gzip_min_length
    then (ok (false, [], []), pools)
    else write_level compress close settings pick encoding settings.gzip_compress_level (ok content)
        pools

-- The items are writers of the encoder with the level.
abbrev pub IsOfLevel : Encoder → ℕ → List ResetWriter → Type 0
IsOfLevel e level = All (λ w. w ≡ level_writer e level)

abbrev pub IsPooled : Settings → Encoder → EncoderPools → Type 0
IsPooled settings e pools =
    IsOfLevel e settings.gzip_compress_level pools.custom × IsOfLevel e best_compression pools.best

-- The pools have compressors of their encoder and level only.
abbrev pub ArePooled : Settings → Pools → Type 0
ArePooled settings pools =
    IsPooled settings gzip_encoder pools.gzip × IsPooled settings deflate_encoder pools.deflate

pool_get-IsOfLevel :
    (e : Encoder) (level pick : ℕ) (ws : List ResetWriter)
    → IsOfLevel e level ws
    → ((pool_get pick (level_writer e level) ws).0 ≡ level_writer e level)
      × IsOfLevel e level (pool_get pick (level_writer e level) ws).1
unfolding pool_get
pool_get-IsOfLevel e level pick [] h = (refl, tt)
pool_get-IsOfLevel e level zero (w ∷ ws) h = h
pool_get-IsOfLevel e level (suc pick) (w ∷ ws) h =
    let (found, rest) = pool_get-IsOfLevel e level pick ws h.1 in (found, (h.0, rest))
