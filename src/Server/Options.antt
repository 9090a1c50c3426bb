-- ===== src/Server/Options.antt =====
-- server.go: the timeouts of a server, as texts and as durations.
pub mod Texts
use tick_framework.Base.{
  ℕ, ◌≡◌, refl, Bool, true, false, List, [], ◌∷◌, Option, none, some, Bytes, if◌then◌else◌,
}

-- A timeout's text and duration, such as `ReadTimeout` and `ReadTimeoutDuration`.
pub record Timeout (D : Type 0) : Type 0 where
  pub text : Bytes
  pub duration : D

-- The timeouts of `ServerOptions`
pub record Timeouts (D : Type 0) : Type 0 where
  pub idle : Timeout D
  pub read : Timeout D
  pub read_header : Timeout D
  pub write : Timeout D
  pub graceful_stop : Timeout D

-- The options of a server that set a timeout.
pub data ServerOption (D : Type 0) : Type 0 where
  graceful_stop_timeout read_timeout read_header_timeout write_timeout : Bytes → ServerOption D
  graceful_stop_duration read_duration read_header_duration write_duration : D → ServerOption D

module _ {D : Type 0} where
  abbrev with_text : Bytes → Timeout D → Timeout D
  with_text text t = record t { text = text }

  abbrev with_duration : D → Timeout D → Timeout D
  with_duration d t = record t { duration = d }

  unfoldable pub set_option : ServerOption D → Timeouts D → Timeouts D
  set_option (graceful_stop_timeout text) t = record t {
    graceful_stop = with_text text t.graceful_stop;
  }
  set_option (read_timeout text) t = record t { read = with_text text t.read }
  set_option (read_header_timeout text) t = record t { read_header = with_text text t.read_header }
  set_option (write_timeout text) t = record t { write = with_text text t.write }
  set_option (graceful_stop_duration d) t = record t {
    graceful_stop = with_duration d t.graceful_stop;
  }
  set_option (read_duration d) t = record t { read = with_duration d t.read }
  set_option (read_header_duration d) t = record t { read_header = with_duration d t.read_header }
  set_option (write_duration d) t = record t { write = with_duration d t.write }

  unfoldable pub set_options : List (ServerOption D) → Timeouts D → Timeouts D
  set_options [] t = t
  set_options (o ∷ os) t = set_options os (set_option o t)

-- With `time.ParseDuration` as a parameter; a text that is no duration leaves the duration.
module _ {D : Type 0} (parse_duration : Bytes → Option D) where
  unfoldable pub parsed : Option D → Timeout D → Timeout D
  parsed none t = t
  parsed (some d) t = record t { duration = d }

  unfoldable pub resolve_text : Bytes → Timeout D → Timeout D
  resolve_text [] t = t
  resolve_text (c ∷ text) t = parsed (parse_duration (c ∷ text)) t

  unfoldable pub resolve_timeout : Timeout D → Timeout D
  resolve_timeout t = resolve_text t.text t

  -- `Server.Resolve`
  unfoldable pub resolve : Timeouts D → Timeouts D
  resolve t = record {
    idle = resolve_timeout t.idle;
    read = resolve_timeout t.read;
    read_header = resolve_timeout t.read_header;
    write = resolve_timeout t.write;
    graceful_stop = resolve_timeout t.graceful_stop;
  }
