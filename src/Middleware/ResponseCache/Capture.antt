-- ===== src/Middleware/ResponseCache/Capture.antt =====
-- `bodyCaptureWriter` of cache.go.
pub mod Exact
use notevault.Prelude.{
  ◌+◌, ◌-◌, Bool, true, false, List, [], ◌∷◌, ◌++◌, Text, length, ltb, leb, ◌==◌, if◌then◌else◌,
}
use notevault.Prelude.{take}
use notevault.Prelude.Int.{ℤ, pos, negsuc, pos_part}
use notevault.Middleware.ResponseCache.Http.{
  Writer, Action, set_header, set_status, write_body, write_string, send_header, with_header,
  with_status, with_sent, write, header_set,
}

pub record CaptureWriter : Type 0 where
  pub buf : Text
  pub max : ℤ
  pub truncated : Bool
  pub writer : Writer

abbrev pub is_zero : ℤ → Bool
is_zero (pos n) = n == 0
is_zero (negsuc n) = false

module _ (canonical : Text → Text) where
  abbrev passed : Text → CaptureWriter → CaptureWriter
  passed b w = record w { writer = write canonical b w.writer }

  -- `Write`. `remain` is the room left; it is 0 where the source's is negative.
  unfoldable pub capture_write : Text → CaptureWriter → CaptureWriter
  unfolding write
  capture_write b w =
      let remain = pos_part w.max - length w.buf in
      if is_zero w.max
      then record (passed b w) { buf = w.buf ++ b }
      else if w.truncated
      then passed b w
      else if leb remain 0
      then record (passed b w) { truncated = true }
      else if ltb remain (length b)
      then record (passed b w) { buf = w.buf ++ take remain b; truncated = true }
      else record (passed b w) { buf = w.buf ++ b }

  -- One call of the chain: the other methods, `WriteString` among them, are those of the embedded
  -- writer.
  unfoldable pub capture_act : Action → CaptureWriter → CaptureWriter
  unfolding capture_write header_set
  capture_act (set_header name value) w = record w {
    writer = with_header canonical name value w.writer;
  }
  capture_act (set_status status) w = record w { writer = with_status canonical status w.writer }
  capture_act (write_body b) w = capture_write b w
  capture_act (write_string b) w = passed b w
  capture_act send_header w = record w { writer = with_sent canonical w.writer }

  unfoldable pub capture_all : List Action → CaptureWriter → CaptureWriter
  unfolding capture_act
  capture_all [] w = w
  capture_all (a ∷ actions) w = capture_all actions (capture_act a w)

abbrev pub new_capture : ℤ → Writer → CaptureWriter
new_capture max w = record { buf = []; max = max; truncated = false; writer = w }
