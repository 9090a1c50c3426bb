-- ===== src/Server/Options/Texts.antt =====
-- server.go: which of a timeout's text and duration counts.
use tick_framework.Base.{◌≡◌, refl, ap, ◌∙◌, List, [], ◌∷◌, Option, some, Bytes, All}
use tick_framework.Server.Options.{
  Timeouts, ServerOption, graceful_stop_timeout, read_timeout, read_header_timeout, write_timeout,
  graceful_stop_duration, read_duration, read_header_duration, write_duration, set_option,
  set_options, parsed, resolve_text, resolve_timeout, resolve,
}

-- The options that set a duration.
abbrev pub SetsDuration : {D : Type 0} → ServerOption D → Type 0
SetsDuration (graceful_stop_duration d) = Unit
SetsDuration (read_duration d) = Unit
SetsDuration (read_header_duration d) = Unit
SetsDuration (write_duration d) = Unit
SetsDuration _ = ⊥

module _ {D : Type 0} (parse_duration : Bytes → Option D) where
  -- A text that is not empty and a duration.
  abbrev pub IsDuration : Bytes → Type 0
  IsDuration [] = ⊥
  IsDuration (c ∷ text) = (d : D) × (parse_duration (c ∷ text) ≡ some d)

  pub record HasTexts (t : Timeouts D) : Type 0 where
    pub idle : IsDuration t.idle.text
    pub read : IsDuration t.read.text
    pub read_header : IsDuration t.read_header.text
    pub write : IsDuration t.write.text
    pub graceful_stop : IsDuration t.graceful_stop.text

  text_counts :
      (text : Bytes) (x y : D)
      → IsDuration text
      → resolve_timeout parse_duration (record { text = text; duration = x })
        ≡ resolve_timeout parse_duration (record { text = text; duration = y })
  unfolding resolve_timeout resolve_text parsed
  text_counts [] x y n = absurd n
  text_counts (c ∷ text) x y (d, e) = rw (e, parsed) refl

  resolve-set_option :
      (o : ServerOption D) (t : Timeouts D)
      → SetsDuration o
      → HasTexts t
      → resolve parse_duration (set_option o t) ≡ resolve parse_duration t
  unfolding resolve set_option
  resolve-set_option (graceful_stop_timeout text) t n h = absurd n
  resolve-set_option (read_timeout text) t n h = absurd n
  resolve-set_option (read_header_timeout text) t n h = absurd n
  resolve-set_option (write_timeout text) t n h = absurd n
  resolve-set_option (graceful_stop_duration d) t s h =
      ap (λ x. record (resolve parse_duration t) { graceful_stop = x })
        (text_counts t.graceful_stop.text d t.graceful_stop.duration h.graceful_stop)
  resolve-set_option (read_duration d) t s h =
      ap (λ x. record (resolve parse_duration t) { read = x })
        (text_counts t.read.text d t.read.duration h.read)
  resolve-set_option (read_header_duration d) t s h =
      ap (λ x. record (resolve parse_duration t) { read_header = x })
        (text_counts t.read_header.text d t.read_header.duration h.read_header)
  resolve-set_option (write_duration d) t s h =
      ap (λ x. record (resolve parse_duration t) { write = x })
        (text_counts t.write.text d t.write.duration h.write)

  HasTexts-set_option :
      (o : ServerOption D) (t : Timeouts D)
      → SetsDuration o
      → HasTexts t
      → HasTexts (set_option o t)
  unfolding set_option
  HasTexts-set_option (graceful_stop_timeout text) t n h = absurd n
  HasTexts-set_option (read_timeout text) t n h = absurd n
  HasTexts-set_option (read_header_timeout text) t n h = absurd n
  HasTexts-set_option (write_timeout text) t n h = absurd n
  HasTexts-set_option (graceful_stop_duration d) t s h = record {
    idle = h.idle;
    read = h.read;
    read_header = h.read_header;
    write = h.write;
    graceful_stop = h.graceful_stop;
  }
  HasTexts-set_option (read_duration d) t s h = record {
    idle = h.idle;
    read = h.read;
    read_header = h.read_header;
    write = h.write;
    graceful_stop = h.graceful_stop;
  }
  HasTexts-set_option (read_header_duration d) t s h = record {
    idle = h.idle;
    read = h.read;
    read_header = h.read_header;
    write = h.write;
    graceful_stop = h.graceful_stop;
  }
  HasTexts-set_option (write_duration d) t s h = record {
    idle = h.idle;
    read = h.read;
    read_header = h.read_header;
    write = h.write;
    graceful_stop = h.graceful_stop;
  }

  -- Where the texts of all timeouts are durations, options that set durations change nothing of what
  -- `Resolve` leaves, in any number and order.
  pub resolve-set_options :
      (os : List (ServerOption D)) (t : Timeouts D)
      → All SetsDuration os
      → HasTexts t
      → resolve parse_duration (set_options os t) ≡ resolve parse_duration t
  unfolding set_options
  resolve-set_options [] t _ h = refl
  resolve-set_options (o ∷ os) t (s, ss) h =
      resolve-set_options os (set_option o t) ss (HasTexts-set_option o t s h)
      ∙ resolve-set_option o t s h
