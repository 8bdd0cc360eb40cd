-- ===== src/Usb/Pipes.antt =====
-- driver/usb.c: the pipes of an interface and the cancelling of a pipe. How Linux packs an endpoint into
-- a pipe is a parameter: `pipe_endpoint` is usb_pipeendpoint, a number of four bits.
use ndiswrapper.Base.{
  ℕ, zero, suc, ◌+◌, ◌*◌, ◌%◌, ◌^◌, ◌≤◌, ◌<◌, ◌≡◌, refl, sym, ap, ◌∙◌, Bool, ◌||◌, ◌&&◌, List, [],
  ◌∷◌, ◌++◌, arith, ◌==◌, if◌then◌else◌, ltb, Option, none, some, ℤ, ◌⊎◌, inl, inr, Bool-cases,
  subst, ltb→lt,
}
use mathlib.Core.List.{append_assoc, append-nil}
use ndiswrapper.Usb.{Urbs, wrap_cancel_urb, is_submitted}

pub data Speed : Type 0 where
  low full high : Speed

-- `struct usb_endpoint_descriptor` and `struct usbd_pipe_information`. A handle is the number of the
-- endpoint.
pub record Endpoint : Type 0 where
  pub address : ℕ
  pub attributes : ℕ
  pub max_packet_size : ℕ
  pub interval : ℕ

pub record Pipe : Type 0 where
  pub max_packet_size : ℕ
  pub address : ℕ
  pub interval : ℕ
  pub type : ℕ
  pub handle : Option Endpoint
  pub max_tx_size : ℕ
  pub flags : ℕ

-- `for (j = k = 1; j < bInterval; k++) j *= 2`, and the k behind it.
pub interval_loop : ℕ → ℕ → ℕ → ℕ → Option ℕ
interval_loop zero interval j k = none
interval_loop (suc fuel) interval j k =
    let rest = interval_loop fuel interval (j * 2) (k + 1) in
    if ltb j interval then rest else some k

-- Ten rounds, since a bInterval has eight bits.
pub pipe_interval : Speed → ℕ → Option ℕ
unfolding interval_loop
pipe_interval low interval = some ((interval + 5) % 2 ^ 8)
pipe_interval full interval = some interval
pipe_interval high interval = interval_loop 10 interval 1 1

pub set_pipe : Speed → Endpoint → Pipe → Option Pipe
unfolding pipe_interval
set_pipe speed ep pipe =
    let type = ep.attributes % 4 in
    let known = record pipe {
      max_packet_size = ep.max_packet_size;
      address = ep.address;
      type = type;
      handle = some ep;
    } in
    if type == 3
    then (elim (pipe_interval speed ep.interval) [
      | none ↦ none
      | some k ↦ some (record known { interval = k })
    ])
    else some known

-- The endpoints of the current setting, and the pipes of the driver's interface.
pub set_intf_pipe_info : Speed → List Endpoint → List Pipe → Option (List Pipe)
unfolding set_pipe
set_intf_pipe_info speed [] pipes = some pipes
set_intf_pipe_info speed (ep ∷ eps) [] = some []
set_intf_pipe_info speed (ep ∷ eps) (p ∷ pipes) = elim (set_pipe speed ep p) [
  | none ↦ none
  | some p' ↦ elim (set_intf_pipe_info speed eps pipes) [ none ↦ none | some ps ↦ some (p' ∷ ps) ]
]

-- The loop of wrap_abort_pipe over the device's list. `ret` is what usb_unlink_urb returns.
pub abort_loop : (ℕ → ℕ) → (ℕ → ℤ) → ℕ → List ℕ → Urbs → Urbs
abort_loop pipe_endpoint ret address [] s = s
abort_loop pipe_endpoint ret address (w ∷ ws) s =
    let endpoint = pipe_endpoint (s.urbs w).pipe in
    abort_loop pipe_endpoint ret address ws
      (if (endpoint == address) || (endpoint == 0) then (wrap_cancel_urb s w (ret w)).0 else s)

-- `i` is the IRP of the request and `address` the bEndpointAddress of its pipe.
pub wrap_abort_pipe : (ℕ → ℕ) → (ℕ → ℤ) → Urbs → ℕ → ℕ → Urbs × ℕ
unfolding abort_loop wrap_cancel_urb
wrap_abort_pipe pipe_endpoint ret s i address =
    let s' = abort_loop pipe_endpoint ret address s.wrap_urb_list s in
    (
      record s' {
        irps = λ j. if i == j then record (s'.irps i) { nt_status = 0x00010000 } else s'.irps j;
      },
      0,
    )

double : (n : ℕ) → 2 ^ n * 2 ≡ 2 ^ suc n
double n = omega arith

loop_result :
    (fuel interval n : ℕ)
    → interval ≤ 2 ^ (n + fuel)
    → (n ≡ 0) ⊎ (2 ^ n < 2 * interval)
    → (m : ℕ) × (interval_loop (suc fuel) interval (2 ^ n) (n + 1) ≡ some (m + 1))
      × (interval ≤ 2 ^ m)
      × ((m ≡ 0) ⊎ (2 ^ m < 2 * interval))
unfolding interval_loop
loop_result zero interval n h c =
    let e : n + 0 ≡ n = omega arith in
    let top : interval ≤ 2 ^ n = subst (λ x. interval ≤ 2 ^ x) e h in (n, ground arith, top, c)
loop_result (suc fuel) interval n h c = elim (Bool-cases (ltb (2 ^ n) interval)) [
  | inr stop ↦ (n, rw stop refl, ground arith, c)
  | inl more ↦
      let e : n + suc fuel ≡ suc n + fuel = omega arith in
      let (m, run, top, least) =
        loop_result fuel interval (suc n) (subst (λ x. interval ≤ 2 ^ x) e h)
          (inr (omega (arith, sym (double n), ltb→lt _ _ more))) in
      let k : suc n + 1 ≡ n + 1 + 1 = omega arith in
      (
        m,
        rw more (
            subst (λ x. interval_loop (suc fuel) interval x (n + 1 + 1) ≡ some (m + 1))
              (sym (double n))
              (subst (λ x. interval_loop (suc fuel) interval (2 ^ suc n) x ≡ some (m + 1)) k run)),
        top,
        least,
      )
]

-- For an endpoint of a device at high speed, the loop ends for each `bInterval` of eight bits, with
-- the number k for which 2 ^ (k - 1) is the least power of two that is not below `bInterval`.
high_speed_interval :
    (interval : ℕ)
    → interval < 2 ^ 8
    → (m : ℕ) × (pipe_interval high interval ≡ some (m + 1))
      × (interval ≤ 2 ^ m)
      × ((m ≡ 0) ⊎ (2 ^ m < 2 * interval))
unfolding pipe_interval
high_speed_interval interval h = loop_result 9 interval 0 (omega arith) (inl refl)

-- Which wrap_urbs of a list are asked to be cancelled.
abbrev pub hits : (ℕ → ℕ) → Urbs → ℕ → ℕ → Bool
hits pipe_endpoint s address w =
    is_submitted (s.urbs w).state
    && ((pipe_endpoint (s.urbs w).pipe == address) || (pipe_endpoint (s.urbs w).pipe == 0))

abbrev pub select : (ℕ → Bool) → List ℕ → List ℕ
select p [] = []
select p (w ∷ ws) = if p w then w ∷ select p ws else select p ws

cancel_hit :
    (pipe_endpoint : ℕ → ℕ) (ret : ℤ) (address : ℕ) (s : Urbs) (w : ℕ)
    → (if (pipe_endpoint (s.urbs w).pipe == address) || (pipe_endpoint (s.urbs w).pipe == 0)
        then (wrap_cancel_urb s w ret).0
        else s)
      ≡ (if hits pipe_endpoint s address w then record s { unlinked = s.unlinked ++ w ∷ [] } else s)
unfolding wrap_cancel_urb
cancel_hit pipe_endpoint ret address s w = ground arith

abort_loop_lem :
    (pipe_endpoint : ℕ → ℕ) (ret : ℕ → ℤ) (address : ℕ) (ws : List ℕ) (s : Urbs)
    → abort_loop pipe_endpoint ret address ws s
      ≡ record s { unlinked = s.unlinked ++ select (hits pipe_endpoint s address) ws }
unfolding abort_loop
abort_loop_lem pipe_endpoint ret address [] s =
    ap (λ l. record s { unlinked = l }) (sym (append-nil s.unlinked))
abort_loop_lem pipe_endpoint ret address (w ∷ ws) s =
    ap (abort_loop pipe_endpoint ret address ws) (cancel_hit pipe_endpoint (ret w) address s w)
    ∙ elim (Bool-cases (hits pipe_endpoint s address w)) [
      | inl hit ↦
          let s' = record s { unlinked = s.unlinked ++ w ∷ [] } in
          ap (λ b. abort_loop pipe_endpoint ret address ws (if b then s' else s)) hit
          ∙ abort_loop_lem pipe_endpoint ret address ws s'
          ∙ ap (λ l. record s { unlinked = l })
              (append_assoc s.unlinked (w ∷ []) (select (hits pipe_endpoint s address) ws)
                ∙ ap
                    (λ b.
                      s.unlinked
                      ++ (if b
                          then w ∷ select (hits pipe_endpoint s address) ws
                          else select (hits pipe_endpoint s address) ws))
                    (sym hit))
      | inr miss ↦
          let s' = record s { unlinked = s.unlinked ++ w ∷ [] } in
          ap (λ b. abort_loop pipe_endpoint ret address ws (if b then s' else s)) miss
          ∙ abort_loop_lem pipe_endpoint ret address ws s
          ∙ ap
              (λ b. record s {
                unlinked =
                    s.unlinked
                    ++ (if b
                        then w ∷ select (hits pipe_endpoint s address) ws
                        else select (hits pipe_endpoint s address) ws);
              })
              (sym miss)
    ]

-- wrap_abort_pipe asks Linux to cancel just the submitted urbs of the list whose endpoint number is the
-- whole bEndpointAddress or 0, in the order of the list.
abort_pipe_unlinks :
    (pipe_endpoint : ℕ → ℕ) (ret : ℕ → ℤ) (s : Urbs) (i address : ℕ)
    → (wrap_abort_pipe pipe_endpoint ret s i address).0.unlinked
      ≡ s.unlinked ++ select (hits pipe_endpoint s address) s.wrap_urb_list
unfolding wrap_abort_pipe
abort_pipe_unlinks pipe_endpoint ret s i address =
    ap (λ t. t.unlinked) (abort_loop_lem pipe_endpoint ret address s.wrap_urb_list s)

select-same : (p q : ℕ → Bool) (ws : List ℕ) → ((w : ℕ) → p w ≡ q w) → select p ws ≡ select q ws
select-same p q [] h = refl
select-same p q (w ∷ ws) h = ground (arith, h w, select-same p q ws h)

-- The address of an endpoint towards the host has the bit 0x80, and an endpoint number has four bits:
-- then wrap_abort_pipe cancels no urb of that endpoint, but those of endpoint 0 only.
pub abort_in_pipe_misses :
    (pipe_endpoint : ℕ → ℕ) (ret : ℕ → ℤ) (s : Urbs) (i address : ℕ)
    → ((pipe : ℕ) → pipe_endpoint pipe < 16)
    → 16 ≤ address
    → (wrap_abort_pipe pipe_endpoint ret s i address).0.unlinked
      ≡ s.unlinked
        ++ select
            (λ w. is_submitted (s.urbs w).state && (pipe_endpoint (s.urbs w).pipe == 0))
            s.wrap_urb_list
abort_in_pipe_misses pipe_endpoint ret s i address four h =
    abort_pipe_unlinks pipe_endpoint ret s i address
    ∙ ap (λ l. s.unlinked ++ l)
        (select-same _ _ s.wrap_urb_list (λ w. ground (arith, four (s.urbs w).pipe)))
