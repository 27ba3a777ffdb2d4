-- ===== src/Server/Session/Silence.antt =====
-- The time-out of a session (server/game/Server/WorldSession.cpp and WorldSession.h).
use landlord.Prelude.{
  ℕ, ◌+◌, ◌-◌, ◌^◌, ◌<◌, ◌≡◌, ap, ◌∙◌, inl, inr, Bool, true, false, none, some, List, [], ◌∷◌,
  arith, ltb, if◌then◌else◌, Bool-cases, sub32, is_positive,
}
use landlord.Timing.Elapsed.{sum, AllBelow}
use landlord.Game.Types.{Game}
use landlord.Game.Store.{M, ◌>>=◌, pure}
use landlord.Server.Session.{
  Rooms, WorldSession, handle_packets, session_update, close_late, get_player,
}

-- The updates of a session along these time spans, up to the one that drops it: whether it is still
-- there at the end.
pub stays : List ℕ → WorldSession → Rooms → M Bool
stays [] s rooms = pure true
stays (d ∷ ds) s rooms = do
  (active, s', rooms') ← session_update d s rooms
  if active then stays ds s' rooms' else pure false

silent_update :
    (d : ℕ) (s : WorldSession) (rooms : Rooms) (g : Game) (p : ℕ)
    → s.connection ≡ some true
    → s.recv_queue ≡ []
    → g.session_player s.id ≡ some p
    → session_update d s rooms g ≡ (
        if is_positive (sub32 s.time_out d)
        then some ((true, record s { time_out = sub32 s.time_out d }, rooms), g)
        else some
            ((false, record s { time_out = sub32 s.time_out d; connection = none }, rooms), g))
unfolding session_update close_late handle_packets get_player
silent_update d s rooms g p c q e = elim (Bool-cases (is_positive (sub32 s.time_out d))) [
  | inl t ↦ rw (t, c, q, e)
  | inr t ↦ rw (t, c, q)
]

-- A client that is logged in but sends nothing is dropped by the update with which the time spans
-- since its last packet reach the time-out, and not before: along any time spans, it is still there
-- exactly if they add up to less. The time-out is positive, and it and each span are below 2^30.
pub stays-silent :
    (ds : List ℕ) (s : WorldSession) (rooms : Rooms) (g : Game) (p : ℕ)
    → s.connection ≡ some true
    → s.recv_queue ≡ []
    → g.session_player s.id ≡ some p
    → 0 < s.time_out
    → s.time_out < 2 ^ 30
    → AllBelow (2 ^ 30) ds
    → stays ds s rooms g ≡ some (ltb (sum ds) s.time_out, g)
unfolding stays
stays-silent [] s rooms g p c q e h k a =
    let there : ltb 0 s.time_out ≡ true = ground arith in rw there
stays-silent (d ∷ ds) s rooms g p c q e h k a = elim (Bool-cases (ltb d s.time_out)) [
  | inl t ↦
      let left : is_positive (sub32 s.time_out d) ≡ true = ground arith in
      let less : sub32 s.time_out d ≡ s.time_out - d = ground arith in
      let same : ltb (sum ds) (s.time_out - d) ≡ ltb (d + sum ds) s.time_out = ground arith in
      let s' : WorldSession = record s { time_out = sub32 s.time_out d } in
      rw (silent_update d s rooms g p c q e, ◌>>=◌, left)
        (stays-silent ds s' rooms g p c q e (ground arith) (ground arith) a.1
          ∙ ap (λ n. some (ltb (sum ds) n, g)) less
          ∙ ap (λ b. some (b, g)) same)
  | inr t ↦
      let late : is_positive (sub32 s.time_out d) ≡ false = ground arith in
      let over : ltb (d + sum ds) s.time_out ≡ false = ground arith in
      rw (silent_update d s rooms g p c q e, ◌>>=◌, late, over)
]
