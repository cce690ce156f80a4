-- ===== src/Amw0/FanPlan/Writes.antt =====
-- What the run of a plan in src/backends/amw0/backend.c writes to the embedded controller.
use kuangshi16pro_series_gm.Prelude.{
  ℕ, ◌≡◌, refl, false, none, some, List, [], ◌∷◌, ◌++◌, arith, if◌then◌else◌, Bool-cases, inl, inr,
  ◌∙◌, sym,
}
use kuangshi16pro_series_gm.Text.{Text, is_empty}
use kuangshi16pro_series_gm.Status.{Status, is_ok, is_ok→eq}
use kuangshi16pro_series_gm.Backend.{BackendResult}
use kuangshi16pro_series_gm.Plan.{ActionKind, Action, Plan}
use kuangshi16pro_series_gm.Amw0.Host.{Host, Reading, failed, given}
use kuangshi16pro_series_gm.Amw0.Transport.{
  Transport, trace_io, trace_note, eval_reply, eval, send_packet, send_wkbc, send_ec_write,
}
use kuangshi16pro_series_gm.Amw0.Control.{mode_index_for_mode, mode_control_for_mode}
use kuangshi16pro_series_gm.Amw0.Device.{Amw0}
use kuangshi16pro_series_gm.Amw0.Access.{write_ec_byte}
use kuangshi16pro_series_gm.Amw0.Apply.{Wrote}
use kuangshi16pro_series_gm.Amw0.FanPlan.{
  write_note, noted, apply_custom_enable, apply_plan_ec_write, run_action, run_actions,
}

-- The pairs of an address and a value that an action writes.
unfoldable pub action_writes : ActionKind → Action → List (ℕ × ℕ)
action_writes ActionKind.stage a = []
action_writes ActionKind.custom_mode a = if a.enabled then (0x07AB, 3) ∷ (0x0751, 0xA0) ∷ [] else []
action_writes ActionKind.ec_write a = (a.addr, a.value) ∷ []

unfoldable pub plan_writes : Plan → List (ℕ × ℕ)
plan_writes [] = []
plan_writes (a ∷ as') = action_writes a.kind a ++ plan_writes as'

module _ {W : Type 0} (host : Host W) where
  -- Writes in order, up to the first that fails.
  unfoldable pub write_all : List (ℕ × ℕ) → Amw0 W → Status × Amw0 W
  write_all [] a = (Status.ok, a)
  write_all ((addr, value) ∷ ws) a =
      let (s, a') = write_ec_byte host a addr value in
      let rest = write_all ws a' in if is_ok s then rest else (s, a')

  noted-untraced :
      (note : Text) (a : Amw0 W) → a.transport.trace_enabled ≡ false → noted host note a ≡ a
  unfolding trace_note noted
  noted-untraced note a h = elim (Bool-cases (is_empty note)) [
    | inl e ↦ rw (e) refl
    | inr e ↦ rw (e, h) refl
  ]

  trace_io-trace :
      (t : Transport W) (e r : Text) → (trace_io host t e r).trace_enabled ≡ t.trace_enabled
  unfolding trace_io
  trace_io-trace t e r = ground arith

  eval_reply-trace :
      (t : Transport W) (e r : Text) (read : Reading)
      → (eval_reply host t e r read).2.trace_enabled ≡ t.trace_enabled
  unfolding eval_reply
  eval_reply-trace t e r (failed _) = refl
  eval_reply-trace t e r (given _ (some _)) = refl
  eval_reply-trace t e r (given _ none) = trace_io-trace t e _

  eval-trace : (t : Transport W) (e r : Text) → (eval host t e r).2.trace_enabled ≡ t.trace_enabled
  unfolding eval
  eval-trace t e r = grind (arith, eval_reply-trace, trace_io-trace)

  write_ec_byte-trace :
      (a : Amw0 W) (offset value : ℕ)
      → (write_ec_byte host a offset value).1.transport.trace_enabled ≡ a.transport.trace_enabled
  unfolding write_ec_byte send_ec_write send_wkbc send_packet
  write_ec_byte-trace a offset value = grind (arith, eval-trace)

  write_all_one :
      (addr value : ℕ) (a : Amw0 W)
      → write_all ((addr, value) ∷ []) a ≡ write_ec_byte host a addr value
  unfolding write_all
  write_all_one addr value a =
      let (s, a') = write_ec_byte host a addr value in
      elim (Bool-cases (is_ok s)) [ inl e ↦ rw (e, is_ok→eq s e) refl | inr e ↦ rw (e) refl ]

  -- What a run of an action amounts to, where there is no trace file.
  abbrev Runs : List (ℕ × ℕ) → Amw0 W → Wrote W → Type 0
  Runs ws a (s, _, a') = ((s, a') ≡ write_all ws a) × (a'.transport.trace_enabled ≡ false)

  apply_custom_enable-Runs :
      (r : BackendResult) (a : Amw0 W)
      → a.transport.trace_enabled ≡ false
      → Runs ((0x07AB, 3) ∷ (0x0751, 0xA0) ∷ []) a (apply_custom_enable host r a)
  unfolding apply_custom_enable write_all mode_index_for_mode mode_control_for_mode
  apply_custom_enable-Runs r a h =
      let (s1, a1) = write_ec_byte host a 0x07AB 3 in
      let (s2, a2) = write_ec_byte host a1 0x0751 0xA0 in
      let q1 = write_ec_byte-trace a 0x07AB 3 ∙ h in
      let q2 = write_ec_byte-trace a1 0x0751 0xA0 ∙ q1 in
      elim (Bool-cases (is_ok s1)) [
        | inl e ↦
            rw (apply_custom_enable, noted-untraced _ a h, e)
              (sym (write_all_one 0x0751 0xA0 a1), q2)
        | inr e ↦ rw (apply_custom_enable, noted-untraced _ a h, e) (refl, q1)
      ]

  run_action-Runs :
      (k : ActionKind) (action : Action) (stage : Text) (r : BackendResult) (a : Amw0 W)
      → a.transport.trace_enabled ≡ false
      → Runs (action_writes k action) a (run_action host k action stage r a).1
  unfolding run_action action_writes write_all apply_plan_ec_write
  run_action-Runs ActionKind.stage action stage r a h =
      rw (run_action, noted-untraced action.label a h) (refl, h)
  run_action-Runs ActionKind.custom_mode action stage r a h = elim (Bool-cases action.enabled) [
    | inl e ↦ rw (e) (apply_custom_enable-Runs r a h)
    | inr e ↦ rw (e) (refl, h)
  ]
  run_action-Runs ActionKind.ec_write action stage r a h =
      rw (run_action, apply_plan_ec_write, noted-untraced (write_note stage action) a h)
        (
          sym (write_all_one action.addr action.value a),
          write_ec_byte-trace a action.addr action.value ∙ h,
        )

  write_all-append :
      (xs ys : List (ℕ × ℕ)) (a : Amw0 W)
      → write_all (xs ++ ys) a
        ≡ (let (s, a') = write_all xs a in if is_ok s then write_all ys a' else (s, a'))
  unfolding write_all
  write_all-append [] ys a = refl
  write_all-append ((addr, value) ∷ xs) ys a =
      let (s, a') = write_ec_byte host a addr value in
      elim (Bool-cases (is_ok s)) [
        | inl e ↦ rw (e) (write_all-append xs ys a')
        | inr e ↦ rw (e, e) refl
      ]

  pub run_actions-writes :
      (plan : Plan) (stage : Text) (r : BackendResult) (a : Amw0 W)
      → a.transport.trace_enabled ≡ false
      → let (s, _, a') = run_actions host plan stage r a in (s, a') ≡ write_all (plan_writes plan) a
  unfolding run_actions plan_writes write_all
  run_actions-writes [] stage r a h = refl
  run_actions-writes (action ∷ plan) stage r a h =
      let (stage', (s, r', a')) = run_action host action.kind action stage r a in
      let (e, q) = run_action-Runs action.kind action stage r a h in
      elim (Bool-cases (is_ok s)) [
        | inl o ↦
            rw (write_all-append (action_writes action.kind action) (plan_writes plan) a, ← e, o)
              (run_actions-writes plan stage' r' a' q)
        | inr o ↦
            rw (write_all-append (action_writes action.kind action) (plan_writes plan) a, ← e, o)
              refl
      ]
