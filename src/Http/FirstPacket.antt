-- ===== src/Http/FirstPacket.antt =====
-- The first packet of a response that has all of the header.
use sdk_linux.Prelude.{
  length-drop, ℕ, ◌+◌, ◌-◌, ◌<◌, ◌≡◌, inl, inr, refl, sym, arith, List, [], ◌∷◌, ◌++◌, take, drop,
  take_all, length, length-take, length-append, length-drop, take-length-append, ap, ◌∙◌, true,
  false, ◌==◌, Bool-cases, leb, ltb,
}
use sdk_linux.Prelude.Int.{neg}
use sdk_linux.Prelude.Bytes.{Bytes}
use sdk_linux.Ipc.Text.{atoi}
use sdk_linux.Http.State.{Call, close_and_return, Limits, got, Round}
use sdk_linux.Http.Header.{before_body_line, begin_body, head_loop}
use sdk_linux.Http.Response.{
  number_at, IsTimely, Ends, Gives, timely_ready, IsFirst, read_packet-first, body_loop-Gives,
  take_nil, take-append_left, drop-append_left,
}

module _ (l : Limits) (i : ℕ) (first : Bytes) (v : IsFirst i first) where
  pub begin_body-Gives :
      {rs : List Round} {text : Bytes} (rest : Bytes) (c : Call)
      → i + 3 < length first
      → Ends l rs text
      → Gives c.body_len c.rsp_code c.sent
          (drop (i + 3) first ++ text)
          (begin_body l rs (first ++ rest) i (length first) c)
  unfolding begin_body close_and_return
  begin_body-Gives {rs} {text} rest c begun ends =
      let at_body : drop (i + 3) (first ++ rest) ≡ drop (i + 3) first ++ rest =
        drop-append_left (i + 3) first rest (omega arith) in
      let left : length (drop (i + 3) first) ≡ length first - (i + 3) = length-drop (i + 3) first in
      elim (Bool-cases (leb c.body_len (length first - (i + 3)))) [
        | inl e ↦
            let cut : take c.body_len (drop (i + 3) first ++ rest)
                ≡ take c.body_len (drop (i + 3) first ++ text) =
              take-append_left c.body_len (drop (i + 3) first) rest (ground (arith, e, left))
              ∙ sym (
                  take-append_left c.body_len (drop (i + 3) first) text
                    (ground (arith, e, left))) in
            let past : ltb (length first) (i + 3) ≡ false = ground arith in
            let full : length (take c.body_len (drop (i + 3) first ++ text)) ≡ c.body_len = ground (
              arith,
              length-take c.body_len (drop (i + 3) first ++ text),
              length-append (drop (i + 3) first) text,
              left,
              e,
            ) in
            rw (begin_body, past, e, at_body) (refl, refl, refl, cut, sym full)
        | inr e ↦
            let part : take (length first - (i + 3)) (drop (i + 3) first ++ rest)
                ≡ drop (i + 3) first =
              rw (← left) (take-length-append (drop (i + 3) first) rest) in
            let past : ltb (length first) (i + 3) ≡ false = ground arith in
            let some_left : ((length first - (i + 3)) == 0) ≡ false = ground arith in
            rw (begin_body, past, e, some_left, at_body, part)
              (body_loop-Gives l (record c { body = drop (i + 3) first }) ends
                (ground (arith, e, left)))
      ]

  pub begin_body-alone :
      (rs : List Round) (rest : Bytes) (c : Call)
      → i + 3 ≡ length first
      → Gives c.body_len c.rsp_code c.sent [] (begin_body l rs (first ++ rest) i (length first) c)
  unfolding begin_body close_and_return
  begin_body-alone rs rest c last =
      let past : ltb (length first) (i + 3) ≡ false = ground arith in
      let none_left : ((length first - (i + 3)) == 0) ≡ true = ground arith in
      elim (Bool-cases (leb c.body_len (length first - (i + 3)))) [
        | inl e ↦
            let no_room : c.body_len ≡ 0 = ground arith in
            let cut : take c.body_len (drop (i + 3) (first ++ rest)) ≡ take c.body_len [] =
              ap (λ n. take n (drop (i + 3) (first ++ rest))) no_room ∙ sym (take_nil c.body_len) in
            rw (begin_body, past, e)
              (refl, refl, refl, cut, no_room ∙ ap length (sym (take_nil c.body_len)))
        | inr e ↦
            rw (begin_body, past, e, none_left)
              (refl, refl, refl, sym (take_nil c.body_len), ap length (sym (take_nil c.body_len)))
      ]

  pub head_loop-first :
      (r : Round) (rs : List Round) (c : Call)
      → IsTimely l r.clock r.selected
      → r.received ≡ got first
      → (w : List (ℕ × ℕ)) × (head_loop l
            (r ∷ rs)
            before_body_line
            0
            (record c { rsp_code = neg 1 })
          ≡ begin_body l rs
              (first ++ drop (0 + length first) before_body_line)
              i
              (length first)
              (record c { waits = w; rsp_code = atoi (drop 9 first) }))
  unfolding head_loop
  head_loop-first r rs c t e =
      let (w, f) = timely_ready l r.clock r.selected (record c { rsp_code = neg 1 }) t in
      let whole : take (128 - 0) first ≡ first = take_all (128 - 0) first v.fits in
      let found_there =
        read_packet-first i first (drop (0 + length first) before_body_line) (0 + length first) v in
      let nonempty : (length first == 0) ≡ false = ground (arith, number_at i first v) in
      (w, rw (head_loop, f, e, whole, nonempty, found_there) (rw whole refl))
