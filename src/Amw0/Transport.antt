-- ===== src/Amw0/Transport.antt =====
-- src/backends/amw0/transport.c: an expression is written to the call file and its reply is read from
-- it. `world` stands for all that is outside the program; each function passes it on. A reply buffer is
-- the text that it holds.
use kuangshi16pro_series_gm.Prelude.{
  ℕ, ◌-◌, ◌/◌, ◌%◌, Bool, true, false, not, ◌&&◌, ◌||◌, none, some, List, [], ◌∷◌, ◌++◌, leb, ◌==◌,
  if◌then◌else◌, all,
}
use kuangshi16pro_series_gm.Text.{Text, literal, is_empty}
use kuangshi16pro_series_gm.Status.{Status, is_ok}
use kuangshi16pro_series_gm.Scan.{c_string, trim_end}
use kuangshi16pro_series_gm.Amw0.Host.{map_errno, Reading, failed, given, Host}
use kuangshi16pro_series_gm.Amw0.Packet.{Packet, hex, print_to, packet_format_expr}

-- AMW0_EXPR_MAX
abbrev pub expr_max : ℕ
expr_max = 256

-- AMW0_REPLY_MAX
abbrev pub reply_max : ℕ
reply_max = 128

-- amw0_backend_t, with the world that its files are in.
pub record Transport (W : Type 0) : Type 0 where
  pub call_node : Text  -- char[128]
  pub trace_file : Text  -- char[256]
  pub dry_run : Bool
  pub trace_enabled : Bool
  pub world : W

-- amw0_route_t; only this one is used.
abbrev pub route_wkbc1 : ℕ
route_wkbc1 = 1

-- `isxdigit` in the C locale.
unfoldable pub is_xdigit : ℕ → Bool
is_xdigit c = (leb b'0' c && leb c b'9') || (leb b'A' c && leb c b'F') || (leb b'a' c && leb c b'f')

-- `trim_reply`
unfoldable pub trim_reply : Text → Text
trim_reply reply = trim_end reply

-- The reply without the prefix that `amw0_reply_looks_numeric` skips.
abbrev skip_prefix : Text → Text
skip_prefix [] = []
skip_prefix (a ∷ []) = a ∷ []
skip_prefix (a ∷ x ∷ ds) = if a == b'0' && (x == b'x' || x == b'X') then ds else a ∷ x ∷ ds

-- `amw0_reply_looks_numeric`; the empty reply has an empty rest.
unfoldable pub reply_looks_numeric : Text → Bool
reply_looks_numeric reply =
    let digits = skip_prefix reply in not (is_empty digits) && all is_xdigit digits

module _ {W : Type 0} (host : Host W) where
  -- An append to the trace file, if tracing is on.
  abbrev trace_append : Transport W → Text → Status × Transport W
  trace_append t text =
      let (opened, w) = host.append_file t.trace_file text t.world in
      if not t.trace_enabled || is_empty t.trace_file
      then (Status.ok, t)
      else (if opened then Status.ok else Status.io, record t { world = w })

  -- `amw0_trace_io`
  unfoldable pub trace_io : Transport W → Text → Text → Transport W
  trace_io t expr reply =
      (trace_append t
        (literal "expr=" ++ (expr ++ (literal "\nreply=" ++ (reply ++ literal "\n\n"))))).1

  -- `amw0_backend_trace_note`
  unfoldable pub trace_note : Transport W → Text → Status × Transport W
  trace_note t note =
      if is_empty note
      then (Status.invalid_argument, t)
      else trace_append t (literal "note=" ++ (note ++ literal "\n\n"))

  -- The end of `amw0_backend_eval`, from the read on.
  unfoldable pub eval_reply : Transport W → Text → Text → Reading → Status × Text × Transport W
  eval_reply t expr reply (failed e) = (map_errno e, reply, t)
  eval_reply t expr reply (given bytes (some e)) = (map_errno e, trim_reply (c_string bytes), t)
  eval_reply t expr reply (given bytes none) =
      let text = trim_reply (c_string bytes) in (Status.ok, text, trace_io t expr text)

  -- `amw0_backend_eval` with a reply buffer of AMW0_REPLY_MAX bytes, as every call passes.
  unfoldable pub eval : Transport W → Text → Text → Status × Text × Transport W
  eval t expr reply =
      let (e, w1) = host.write_file t.call_node (expr ++ literal "\n") t.world in
      let (r, w2) = host.read_file t.call_node (reply_max - 1) w1 in
      if t.dry_run
      then (Status.ok, literal "dry-run", trace_io t expr (literal "dry-run"))
      else elim e [
        | some errno ↦ (map_errno errno, reply, record t { world = w1 })
        | none ↦ eval_reply (record t { world = w2 }) expr reply r
      ]

  -- `amw0_backend_send_packet`
  unfoldable pub send_packet : Transport W → Packet → Text → Status × Text × Transport W
  send_packet t p reply =
      let (s, expr) = packet_format_expr expr_max p in
      if is_ok s then eval t expr reply else (s, reply, t)

  -- `amw0_backend_send_wkbc`
  unfoldable pub send_wkbc : Transport W → ℕ → ℕ → ℕ → ℕ → ℕ → Text → Status × Text × Transport W
  send_wkbc t route sa00 sa01 sa02 sa03 reply =
      send_packet t
        (record { slot = 0; sa0 = sa00; sa1 = sa01; sa2 = sa02; sa3 = sa03; sac1 = route % 65536 })
        reply

  -- `amw0_backend_send_ec_write`
  unfoldable pub send_ec_write : Transport W → ℕ → ℕ → ℕ → Text → Status × Text × Transport W
  send_ec_write t route offset value reply =
      send_wkbc t route (offset % 256) ((offset / 256) % 256) value 0 reply

  -- `amw0_backend_read_ecrr`
  unfoldable pub read_ecrr : Transport W → Text → ℕ → Text → Status × Text × Transport W
  read_ecrr t path offset reply =
      let (s, expr) = print_to 64 (path ++ (literal " 0x" ++ hex offset)) in
      if is_empty path
      then (Status.invalid_argument, reply, t)
      else if is_ok s
      then eval t expr reply
      else (Status.buffer_too_small, reply, t)

  -- The loop of `amw0_backend_probe_ecrr_path` over its candidates.
  unfoldable pub probe_candidates :
      ℕ → List Text → Text → Text → Transport W → Status × Text × Transport W
  probe_candidates n [] reply buffer t = (Status.not_found, buffer, t)
  probe_candidates n (path ∷ paths) reply buffer t =
      let (s, reply', t') = read_ecrr t path 0x0460 reply in
      let (copied, buffer') = print_to n path in
      let rest = probe_candidates n paths reply' buffer t' in
      if is_ok s && reply_looks_numeric reply' then (copied, buffer', t') else rest

  abbrev pub ecrr_candidates : List Text
  ecrr_candidates = literal "\\_SB.INOU.ECRR" ∷ literal "\\_SB_.INOU.ECRR" ∷ []

  -- `amw0_backend_probe_ecrr_path` into a buffer of n bytes, n > 0; `uninit` is its local reply.
  unfoldable pub probe_ecrr_path : ℕ → Text → Text → Transport W → Status × Text × Transport W
  probe_ecrr_path n uninit buffer t = probe_candidates n ecrr_candidates uninit buffer t

-- `amw0_backend_init`, on what the record holds.
unfoldable pub transport_init : {W : Type 0} → Transport W → Text → Bool → Status × Transport W
transport_init t call_node dry_run =
    let (s, node) = print_to 128 call_node in
    if is_empty call_node
    then (Status.invalid_argument, t)
    else if is_ok s
    then (
      Status.ok,
      record t { call_node = node; trace_file = []; dry_run = dry_run; trace_enabled = false },
    )
    else (s, record t { call_node = node })

-- `amw0_backend_set_trace`
unfoldable pub set_trace : {W : Type 0} → Transport W → Text → Status × Transport W
set_trace t trace_file =
    let (s, file) = print_to 256 trace_file in
    if is_empty trace_file
    then (Status.invalid_argument, t)
    else if is_ok s
    then (Status.ok, record t { trace_file = file; trace_enabled = true })
    else (s, record t { trace_file = file })
