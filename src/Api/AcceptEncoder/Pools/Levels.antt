-- ===== src/Api/AcceptEncoder/Pools/Levels.antt =====
-- api/acceptencoder/acceptencoder.go: every content is compressed with the level that is asked for.
use tick_framework.Base.{Option, ℕ, ◌≡◌, ◌⊎◌, refl, ap, Bytes, Res, ok, fail, panic, ◌>>=◌, arith}
use tick_framework.Api.AcceptEncoder.{
  Settings, Encoder, none_encoder, gzip_encoder, deflate_encoder, encoder_name, best_compression,
}
use tick_framework.Api.AcceptEncoder.Pools.{
  ResetWriter, level_writer, EncoderPools, Pools, encode_pooled, put_pooled, encode, put,
  encoder_of, written, cut, is_named, write_level, IsPooled, ArePooled, pool_get-IsOfLevel,
}

-- The levels that `WriteBody` and `WriteFile` ask for.
abbrev pub IsUsed : Settings → ℕ → Type 0
IsUsed settings level = (level ≡ settings.gzip_compress_level) ⊎ (level ≡ best_compression)

-- What is at the response of a content under an encoder with a level: without an encoder the content
-- itself, otherwise the compressed content, up to where the `Close` of the compressor failed.
abbrev pub sent : (Encoder → ℕ → Bytes → Bytes) → Option ℕ → Encoder → ℕ → Bytes → Bytes
sent compress close none_encoder level content = content
sent compress close gzip_encoder level content = cut close (compress gzip_encoder level content)
sent compress close deflate_encoder level content =
    cut close (compress deflate_encoder level content)

module _ (settings : Settings) (e : Encoder) (pick level : ℕ) (pools : EncoderPools) where
  encode_pooled_level :
      IsUsed settings level
      → IsPooled settings e pools
      → ((encode_pooled settings e pick level pools).0 ≡ level_writer e level)
        × IsPooled settings e (encode_pooled settings e pick level pools).1
  unfolding encode_pooled
  encode_pooled_level used pooled =
      let custom = pool_get-IsOfLevel e settings.gzip_compress_level pick pools.custom pooled.0 in
      let best = pool_get-IsOfLevel e best_compression pick pools.best pooled.1 in grind arith

  put_pooled_level :
      {w : ResetWriter}
      → w ≡ level_writer e level
      → IsPooled settings e pools
      → IsPooled settings e (put_pooled settings w level pools)
  unfolding put_pooled
  put_pooled_level h pooled = grind arith

module _ (compress : Encoder → ℕ → Bytes → Bytes) (close : Option ℕ) (settings : Settings)
    (pick level : ℕ) (pools : Pools) where
  encode-put_level :
      (e : Encoder)
      → IsUsed settings level
      → ArePooled settings pools
      → ((content : Bytes)
          → written compress close (encode settings e pick level pools).0 content
            ≡ sent compress close e level content)
        × ArePooled settings (
            put settings e
              (encode settings e pick level pools).0
              level
              (encode settings e pick level pools).1)
  unfolding encode put written
  encode-put_level none_encoder used pooled = ((λ content. refl), pooled)
  encode-put_level gzip_encoder used pooled =
      let (w, kept) =
        encode_pooled_level settings gzip_encoder pick level pools.gzip used pooled.0 in
      (
        (λ content. ap (λ v. written compress close v content) w),
        (put_pooled_level settings gzip_encoder pick level _ w kept, pooled.1),
      )
  encode-put_level deflate_encoder used pooled =
      let (w, kept) =
        encode_pooled_level settings deflate_encoder pick level pools.deflate used pooled.1 in
      (
        (λ content. ap (λ v. written compress close v content) w),
        (pooled.0, put_pooled_level settings deflate_encoder pick level _ w kept),
      )

  -- From pools with compressors of their encoder and level only, and for a level that WriteBody or
  -- WriteFile asks for, writeLevel fails as the copy does, or it names the encoder of the encoding
  -- and has written the content compressed by that encoder with that level, though only the bytes
  -- before the failure where the Close of the compressor fails, which is no error of writeLevel. It
  -- leaves such pools, whichever items the pools give out.
  pub write_level_lem :
      {E : Type 0} (encoding : Bytes) (content : Res E Bytes)
      → IsUsed settings level
      → ArePooled settings pools
      → ((write_level compress close settings pick encoding level content pools).0 ≡ (
          content >>= λ b. ok (
            is_named (encoder_name (encoder_of encoding)),
            encoder_name (encoder_of encoding),
            sent compress close (encoder_of encoding) level b,
          )))
        × ArePooled settings
            (write_level compress close settings pick encoding level content pools).1
  unfolding write_level
  write_level_lem encoding (ok b) used pooled =
      let (content, kept) = encode-put_level (encoder_of encoding) used pooled in
      (
        ap
            (λ c. ok (
              is_named (encoder_name (encoder_of encoding)),
              encoder_name (encoder_of encoding),
              c,
            ))
            (content b),
        kept,
      )
  write_level_lem encoding (fail x) used pooled =
      (refl, (encode-put_level (encoder_of encoding) used pooled).1)
  write_level_lem encoding panic used pooled =
      (refl, (encode-put_level (encoder_of encoding) used pooled).1)
