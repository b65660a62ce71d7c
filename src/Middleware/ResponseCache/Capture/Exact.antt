-- ===== src/Middleware/ResponseCache/Capture/Exact.antt =====
-- What the capturing writer of cache.go keeps.
use notevault.Prelude.{
  ◌+◌, ◌-◌, ◌≤◌, ◌≡◌, refl, sym, ap, ◌∙◌, subst, ◌⊎◌, inl, inr, true, false, List, [], ◌∷◌, ◌++◌,
  arith, Text, length, ltb, leb, Bool-cases, Bool, Option-cases,
}
use mathlib.Core.List.{append_assoc, append-nil}
use notevault.Prelude.{
  length-append, take, take_all, length-take, take-append_left, take-append_right,
}
use notevault.Prelude.Int.{ℤ, pos_part}
use notevault.Middleware.ResponseCache.Http.{
  Writer, Action, set_header, set_status, write_body, write_string, send_header, act, act_all,
  write,
}
use notevault.Middleware.ResponseCache.Capture.{
  CaptureWriter, is_zero, capture_write, capture_act, capture_all, new_capture,
}

-- The bytes that the chain writes with `Write`.
unfoldable pub written_of : List Action → Text
written_of [] = []
written_of (set_header name value ∷ actions) = written_of actions
written_of (set_status status ∷ actions) = written_of actions
written_of (write_body b ∷ actions) = b ++ written_of actions
written_of (write_string b ∷ actions) = written_of actions
written_of (send_header ∷ actions) = written_of actions

-- The chain calls `WriteString`.
unfoldable pub writes_string : List Action → Bool
writes_string [] = false
writes_string (set_header name value ∷ actions) = writes_string actions
writes_string (set_status status ∷ actions) = writes_string actions
writes_string (write_body b ∷ actions) = writes_string actions
writes_string (write_string b ∷ actions) = true
writes_string (send_header ∷ actions) = writes_string actions

written_of-cons :
    (a : Action) (actions : List Action)
    → written_of (a ∷ actions) ≡ written_of (a ∷ []) ++ written_of actions
unfolding written_of
written_of-cons (set_header name value) actions = refl
written_of-cons (set_status status) actions = refl
written_of-cons (write_string b) actions = refl
written_of-cons send_header actions = refl
written_of-cons (write_body b) actions = ap (λ t. t ++ written_of actions) (sym (append-nil b))

-- The buffer of a capture that has seen the bytes `seen`.
record IsCaptured (max : ℤ) (seen : Text) (w : CaptureWriter) : Type 0 where
  same_max : w.max ≡ max
  unlimited : is_zero max ≡ true → (w.buf ≡ seen) × (w.truncated ≡ false)
  limited : is_zero max ≡ false → w.buf ≡ take (pos_part max) seen
  fits : is_zero max ≡ false → w.truncated ≡ false → length seen ≤ pos_part max
  overflows : is_zero max ≡ false → w.truncated ≡ true → pos_part max ≤ length seen

module _ (canonical : Text → Text) where
  -- The branches of a write.
  module _ (b : Text) (w : CaptureWriter) where
    unlimited-write : is_zero w.max ≡ true → (capture_write canonical b w).buf ≡ w.buf ++ b
    unfolding capture_write
    unlimited-write unbounded = ground arith

    unlimited-truncated :
        is_zero w.max ≡ true → (capture_write canonical b w).truncated ≡ w.truncated
    unfolding capture_write
    unlimited-truncated unbounded = ground arith

    same_max-write : (capture_write canonical b w).max ≡ w.max
    unfolding capture_write
    same_max-write = ground arith

    full-write :
        is_zero w.max ≡ false
        → w.truncated ≡ true
        → ((capture_write canonical b w).buf ≡ w.buf)
          × ((capture_write canonical b w).truncated ≡ true)
    unfolding capture_write
    full-write limit full = (ground arith, ground arith)

    cut_nothing : pos_part w.max - length w.buf ≡ 0 → take (pos_part w.max - length w.buf) b ≡ []
    cut_nothing none_left = ap (λ n. take n b) none_left

    room-write :
        is_zero w.max ≡ false
        → w.truncated ≡ false
        → ((capture_write canonical b w).buf ≡ w.buf ++ take (pos_part w.max - length w.buf) b)
          × ((capture_write canonical b w).truncated ≡ false
              → length w.buf + length b ≤ pos_part w.max)
          × ((capture_write canonical b w).truncated ≡ true
              → pos_part w.max ≤ length w.buf + length b)
    unfolding capture_write
    room-write limit room = elim (Bool-cases (leb (pos_part w.max - length w.buf) 0)) [
      | inl none_left ↦
          let nothing : pos_part w.max - length w.buf ≡ 0 = ground arith in
          (
            ground (arith, cut_nothing nothing, append-nil w.buf),
            λ kept. absurd (ground arith),
            λ cut. omega (arith, nothing),
          )
      | inr some_left ↦
          let cases = Bool-cases (ltb (pos_part w.max - length w.buf) (length b)) in
          elim cases [
            | inl over ↦ (ground arith, λ kept. absurd (ground arith), λ cut. ground arith)
            | inr under ↦
                let whole = take_all (pos_part w.max - length w.buf) b (ground arith) in
                (ground (arith, whole), λ kept. ground arith, λ cut. absurd (ground arith))
          ]
    ]

  capture_write-IsCaptured :
      (b seen : Text) (max : ℤ) (w : CaptureWriter)
      → IsCaptured max seen w
      → IsCaptured max (seen ++ b) (capture_write canonical b w)
  capture_write-IsCaptured b seen max w c = elim (Bool-cases (is_zero max)) [
    | inl unbounded ↦
        let zero_here = ap is_zero c.same_max ∙ unbounded in
        record {
          same_max = same_max-write b w ∙ c.same_max;
          unlimited = λ z. (
            unlimited-write b w zero_here ∙ ap (λ t. t ++ b) (c.unlimited unbounded).0,
            unlimited-truncated b w zero_here ∙ (c.unlimited unbounded).1,
          );
          limited = λ n. absurd (cc (unbounded, n));
          fits = λ n. absurd (cc (unbounded, n));
          overflows = λ n. absurd (cc (unbounded, n));
        }
    | inr bound ↦
        let bound_here = ap is_zero c.same_max ∙ bound in
        elim (Bool-cases w.truncated) [
          | inl full ↦
              let over = c.overflows bound full in
              let (same, cut) = full-write b w bound_here full in
              record {
                same_max = same_max-write b w ∙ c.same_max;
                unlimited = λ z. absurd (cc (bound, z));
                limited =
                    λ n. same ∙ c.limited bound ∙ sym (take-append_left (pos_part max) seen b over);
                fits = λ n kept. absurd (cc (cut, kept));
                overflows = λ n k. omega (arith, over, length-append seen b);
              }
          | inr room ↦
              let fit = c.fits bound room in
              let all = c.limited bound ∙ take_all (pos_part max) seen fit in
              let (grown, kept, cut) = room-write b w bound_here room in
              let top = ap pos_part c.same_max in
              let len = ap length all in
              record {
                same_max = same_max-write b w ∙ c.same_max;
                unlimited = λ z. absurd (cc (bound, z));
                limited = λ n.
                    grown
                    ∙ ap (λ t. t ++ take (pos_part w.max - length t) b) all
                    ∙ ap (λ m. seen ++ take (m - length seen) b) top
                    ∙ sym (take-append_right (pos_part max) seen b fit);
                fits = λ n k. omega (arith, kept k, top, len, length-append seen b);
                overflows = λ n k. omega (arith, cut k, top, len, length-append seen b);
              }
        ]
  ]

  new-IsCaptured : (max : ℤ) (w : Writer) → IsCaptured max [] (new_capture max w)
  new-IsCaptured max w = record {
    same_max = refl;
    unlimited = λ z. (refl, refl);
    limited = λ n. sym (take_all (pos_part max) [] (omega arith));
    fits = λ n k. omega arith;
    overflows = λ n k. absurd (cc k);
  }

  capture_act-writer :
      (a : Action) (w : CaptureWriter)
      → (capture_act canonical a w).writer ≡ act canonical a w.writer
  unfolding capture_act act capture_write
  capture_act-writer (set_header name value) w = refl
  capture_act-writer (set_status status) w = refl
  capture_act-writer (write_string b) w = refl
  capture_act-writer send_header w = refl
  capture_act-writer (write_body b) w = ground arith

  capture_act-IsCaptured :
      (a : Action) (seen : Text) (max : ℤ) (w : CaptureWriter)
      → IsCaptured max seen w
      → IsCaptured max (seen ++ written_of (a ∷ [])) (capture_act canonical a w)
  unfolding capture_act written_of
  capture_act-IsCaptured (set_header name value) seen max w c =
      subst (λ t. IsCaptured max t (capture_act canonical (set_header name value) w))
        (sym (append-nil seen))
        (record {
          same_max = c.same_max;
          unlimited = c.unlimited;
          limited = c.limited;
          fits = c.fits;
          overflows = c.overflows;
        })
  capture_act-IsCaptured (set_status status) seen max w c =
      subst (λ t. IsCaptured max t (capture_act canonical (set_status status) w))
        (sym (append-nil seen))
        (record {
          same_max = c.same_max;
          unlimited = c.unlimited;
          limited = c.limited;
          fits = c.fits;
          overflows = c.overflows;
        })
  capture_act-IsCaptured (write_string b) seen max w c =
      subst (λ t. IsCaptured max t (capture_act canonical (write_string b) w))
        (sym (append-nil seen))
        (record {
          same_max = c.same_max;
          unlimited = c.unlimited;
          limited = c.limited;
          fits = c.fits;
          overflows = c.overflows;
        })
  capture_act-IsCaptured send_header seen max w c =
      subst (λ t. IsCaptured max t (capture_act canonical send_header w)) (sym (append-nil seen))
        (record {
          same_max = c.same_max;
          unlimited = c.unlimited;
          limited = c.limited;
          fits = c.fits;
          overflows = c.overflows;
        })
  capture_act-IsCaptured (write_body b) seen max w c =
      subst (λ t. IsCaptured max (seen ++ t) (capture_write canonical b w)) (sym (append-nil b))
        (capture_write-IsCaptured b seen max w c)

  capture_all-IsCaptured :
      (actions : List Action) (seen : Text) (max : ℤ) (w : CaptureWriter)
      → IsCaptured max seen w
      → IsCaptured max (seen ++ written_of actions) (capture_all canonical actions w)
  unfolding capture_all written_of
  capture_all-IsCaptured [] seen max w c = subst (λ t. IsCaptured max t w) (sym (append-nil seen)) c
  capture_all-IsCaptured (a ∷ actions) seen max w c =
      subst (λ t. IsCaptured max t (capture_all canonical actions (capture_act canonical a w)))
        (append_assoc seen (written_of (a ∷ [])) (written_of actions)
          ∙ ap (λ t. seen ++ t) (sym (written_of-cons a actions)))
        (capture_all-IsCaptured actions (seen ++ written_of (a ∷ [])) max
          (capture_act canonical a w) (capture_act-IsCaptured a seen max w c))

  capture_all-writer :
      (actions : List Action) (w : CaptureWriter)
      → (capture_all canonical actions w).writer ≡ act_all canonical actions w.writer
  unfolding capture_all act_all
  capture_all-writer [] w = refl
  capture_all-writer (a ∷ actions) w =
      capture_all-writer actions (capture_act canonical a w)
      ∙ ap (act_all canonical actions) (capture_act-writer a w)

  act-body :
      (a : Action) (w : Writer)
      → writes_string (a ∷ []) ≡ false
      → (act canonical a w).body ≡ w.body ++ written_of (a ∷ [])
  unfolding act write written_of writes_string
  act-body (set_header name value) w plain = sym (append-nil w.body)
  act-body (set_status status) w plain = elim (Option-cases w.sent) [
    | inl fresh ↦ rw fresh (sym (append-nil w.body))
    | inr (h, sent) ↦ rw sent (sym (append-nil w.body))
  ]
  act-body (write_body b) w plain = ap (λ t. w.body ++ t) (sym (append-nil b))
  act-body (write_string b) w plain = absurd (cc plain)
  act-body send_header w plain = sym (append-nil w.body)

  writes_string-cons :
      (a : Action) (actions : List Action)
      → writes_string (a ∷ actions) ≡ false
      → (writes_string (a ∷ []) ≡ false) × (writes_string actions ≡ false)
  unfolding writes_string
  writes_string-cons (set_header name value) actions plain = (refl, plain)
  writes_string-cons (set_status status) actions plain = (refl, plain)
  writes_string-cons (write_body b) actions plain = (refl, plain)
  writes_string-cons (write_string b) actions plain = absurd (cc plain)
  writes_string-cons send_header actions plain = (refl, plain)

  -- Without `WriteString`, the client's body is what the chain writes with `Write`.
  pub act_all-body :
      (actions : List Action) (w : Writer)
      → writes_string actions ≡ false
      → (act_all canonical actions w).body ≡ w.body ++ written_of actions
  unfolding act_all written_of
  act_all-body [] w plain = sym (append-nil w.body)
  act_all-body (a ∷ actions) w plain =
      let (first, rest) = writes_string-cons a actions plain in
      act_all-body actions (act canonical a w) rest
      ∙ ap (λ t. t ++ written_of actions) (act-body a w first)
      ∙ append_assoc w.body (written_of (a ∷ [])) (written_of actions)
      ∙ ap (λ t. w.body ++ t) (sym (written_of-cons a actions))

  -- The client sees what it would without the capture. The buffer is what the chain writes with `Write`
  -- unless the capture says that it was cut, which only happens to at least as many bytes as the limit;
  -- and the buffer never exceeds a limit. Where the chain does not call `WriteString`, what it writes
  -- with `Write` is the client's whole body.
  pub capture_exact :
      (max : ℤ) (actions : List Action) (w : Writer)
      → (let c = capture_all canonical actions (new_capture max w) in
          (c.writer ≡ act_all canonical actions w)
          × ((c.buf ≡ written_of actions)
              ⊎ ((c.truncated ≡ true) × (pos_part max ≤ length (written_of actions))))
          × ((is_zero max ≡ true) ⊎ (length c.buf ≤ pos_part max))
          × ((writes_string actions ≡ true) ⊎ (c.writer.body ≡ w.body ++ written_of actions)))
  capture_exact max actions w =
      let c = capture_all canonical actions (new_capture max w) in
      let kept : IsCaptured max (written_of actions) c =
        capture_all-IsCaptured actions [] max (new_capture max w) (new-IsCaptured max w) in
      (
        capture_all-writer actions (new_capture max w),
        elim (Bool-cases (is_zero max)) [
          | inl unbounded ↦ inl (kept.unlimited unbounded).0
          | inr bound ↦ elim (Bool-cases c.truncated) [
            | inl cut ↦ inr (cut, kept.overflows bound cut)
            | inr whole ↦ inl (
                kept.limited bound
                ∙ take_all (pos_part max) (written_of actions) (kept.fits bound whole))
          ]
        ],
        elim (Bool-cases (is_zero max)) [
          | inl unbounded ↦ inl unbounded
          | inr bound ↦ inr (
              omega (
                arith,
                ap length (kept.limited bound),
                length-take (pos_part max) (written_of actions),
              ))
        ],
        elim (Bool-cases (writes_string actions)) [
          | inl strings ↦ inl strings
          | inr plain ↦ inr (
              ap (λ (v : Writer). v.body) (capture_all-writer actions (new_capture max w))
              ∙ act_all-body actions w plain)
        ],
      )
