-- ===== src/Http/Body.antt =====
-- The last loop of `jnh_get`: the body until the server closes or the caller's buffer is full.
use sdk_linux.Prelude.{◌-◌, List, [], ◌∷◌, ◌++◌, take, length}
use sdk_linux.Http.State.{
  Call, Run, pending, close_and_return, jnhe_read, jnhe_ok, Limits, stops, ready, wait_ready, fails,
  got, Round,
}

-- `idx` is the length of what `body` holds; `recv` is asked for `*bodyLen - idx` bytes, and gives 0
-- when the server has closed, or when it is asked for none.
unfoldable pub body_loop : Limits → List Round → Call → Run
body_loop l [] c = pending c
body_loop l (r ∷ rs) c = elim (wait_ready l r.clock r.selected c) [
  | stops ret d ↦ close_and_return ret d
  | ready d ↦ elim r.received [
    | fails ↦ close_and_return jnhe_read d
    | got bytes ↦ elim (take (d.body_len - length d.body) bytes) [
      | [] ↦ close_and_return jnhe_ok (record d { body_len = length d.body })
      | b ∷ part ↦ body_loop l rs (record d { body = d.body ++ b ∷ part })
    ]
  ]
]
