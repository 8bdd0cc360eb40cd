-- ===== src/Usb/Control.antt =====
-- driver/usb.c: the requests that the wrapper passes to Linux and answers at once. What Linux answers
-- is a parameter of each function: the result of the call, an error number or a count of bytes.
use ndiswrapper.Base.{
  ℕ, zero, suc, ◌+◌, ◌-◌, ◌%◌, ◌^◌, ◌<◌, ◌≡◌, ◌≢◌, refl, Bool, true, ◌||◌, List, [], ◌∷◌, arith,
  ◌==◌, if◌then◌else◌, leb, Option, none, some, ℤ, pos, ltb_ℤ, eqb_ℤ, pos_part, Bool-cases, ◌⊎◌,
  inl, inr,
}
use Prim.Native.Nat.{bit_or}
use ndiswrapper.Usb.Kill.{kill_all_urbs}
use ndiswrapper.Usb.{Urbs, wrap_urb_status, errno, ControlRequest}
use ndiswrapper.Usb.Pipes.{Speed, Endpoint, Pipe, set_intf_pipe_info}

-- What usb_control_msg is called with, but for the buffer and the timeout.
pub record ControlMsg : Type 0 where
  pub request : ℕ
  pub request_type : ℕ
  pub value : ℕ
  pub index : ℕ

-- The type bits and the recipient of a vendor or class request; 0 for any other function.
pub request_bits : ℕ → ℕ
request_bits function =
    if function == 0x17
    then 0x40
    else if function == 0x18
    then 0x41
    else if function == 0x19
    then 0x42
    else if function == 0x20
    then 0x43
    else if function == 0x1A
    then 0x20
    else if function == 0x1B
    then 0x21
    else if function == 0x1C
    then 0x22
    else if function == 0x1F
    then 0x23
    else 0

-- The setup packet of a vendor or class request, with `length` the urb's transfer_buffer_length.
pub setup_packet : ℕ → Bool → ℕ → ℕ → ℕ → ℕ → ℕ → ControlRequest
unfolding request_bits
setup_packet function dir_in reserved_bits request value index length = record {
  request_type = bit_or (bit_or (request_bits function) reserved_bits) (if dir_in then 0x80 else 0);
  request = request;
  value = value;
  index = index % 2 ^ 16;
  length = length % 2 ^ 16;
}

-- The call of wrap_set_clear_feature, or `none` for another function. USB_REQ_SET_FEATURE is 3 and
-- USB_REQ_CLEAR_FEATURE 1; USB_DT_DEVICE, USB_DT_INTERFACE and USB_DT_ENDPOINT are 1, 4 and 5.
unfoldable pub feature_msg : ℕ → ℕ → ℕ → Option ControlMsg
feature_msg function feature index =
    let msg = λ (request type : ℕ).
      let m : ControlMsg = record {
        request = request;
        request_type = type;
        value = feature;
        index = index;
      } in
      some m in
    if function == 0x0D
    then msg 3 1
    else if function == 0x0E
    then msg 3 4
    else if function == 0x0F
    then msg 3 5
    else if function == 0x10
    then msg 1 1
    else if function == 0x11
    then msg 1 4
    else if function == 0x12
    then msg 1 5
    else none

-- The status, which is also the NT urb's. `answer` is usb_control_msg.
unfoldable pub wrap_set_clear_feature : (ControlMsg → ℤ) → ℕ → ℕ → ℕ → ℕ
unfolding feature_msg
wrap_set_clear_feature answer function feature index = elim (feature_msg function feature index) [
  | none ↦ 0xC0000E00
  | some msg ↦ wrap_urb_status (answer msg)
]

-- The recipient that wrap_get_status_request asks.
unfoldable pub status_recipient : ℕ → Option ℕ
status_recipient function =
    if function == 0x13
    then some 0
    else if function == 0x14
    then some 1
    else if function == 0x15
    then some 2
    else none

-- The status, and the transfer_buffer_length. `answer` is usb_get_status of a recipient and an index.
unfoldable pub wrap_get_status_request : (ℕ → ℕ → ℤ) → ℕ → ℕ → ℕ → ℕ × ℕ
unfolding status_recipient
wrap_get_status_request answer function index length = elim (status_recipient function) [
  | none ↦ (0xC0000E00, length)
  | some type ↦
      let ret = answer type index in
      if ltb_ℤ ret (pos 0) then (wrap_urb_status ret, length) else (0, pos_part ret)
]

-- Up to three tries; the result of the last. `answer` gives what usb_control_msg returns in each.
pub get_string_from : (ℕ → ℤ) → ℕ → ℕ → ℤ
get_string_from answer try zero = answer try
get_string_from answer try (suc left) =
    if ltb_ℤ (pos 0) (answer try) || eqb_ℤ (answer try) (errno 32)
    then answer try
    else get_string_from answer (try + 1) left

pub wrap_usb_get_string : (ℕ → ℤ) → ℤ
unfolding get_string_from
wrap_usb_get_string answer = get_string_from answer 0 2

-- The status, the transfer_buffer_length and the information of the IRP, which an error leaves alone.
-- A string is descriptor type 3; `descriptor` is what usb_get_descriptor returns.
pub wrap_get_descriptor : (ℕ → ℤ) → ℤ → ℕ → ℕ → ℕ × ℕ × ℕ
unfolding wrap_usb_get_string
wrap_get_descriptor strings descriptor desc_type info =
    let ret = if desc_type == 3 then wrap_usb_get_string strings else descriptor in
    if ltb_ℤ ret (pos 0) then (wrap_urb_status ret, 0, info) else (0, pos_part ret, pos_part ret)

-- An interface of the driver's request: its length in bytes, number and setting, and its pipes.
pub record Interface : Type 0 where
  pub length : ℕ
  pub number : ℕ
  pub alternate : ℕ
  pub pipes : List Pipe

-- What Linux knows of a device: `set_interface` is usb_set_interface, and `endpoints` the endpoints of
-- the interface that usb_ifnum_to_if finds.
pub record Host : Type 0 where
  pub speed : Speed
  pub set_interface : ℕ → ℕ → ℤ
  pub endpoints : ℕ → Option (List Endpoint)
  pub set_configuration : ℕ → ℤ
  pub reset_configuration : ℤ

-- The interface with its pipes, and the status; `none` where the fuel of an interval runs out.
pub wrap_select_interface : Host → Interface → Option (Interface × ℕ)
wrap_select_interface host intf =
    let ret = host.set_interface intf.number intf.alternate in
    if ltb_ℤ ret (pos 0)
    then some (intf, wrap_urb_status ret)
    else elim (host.endpoints intf.number) [
      | none ↦ some (intf, 0x80000500)
      | some eps ↦ elim (set_intf_pipe_info host.speed eps intf.pipes) [
        | none ↦ none
        | some pipes ↦ some (record intf { pipes = pipes }, 0)
      ]
    ]

-- The loop of wrap_select_configuration over at most `n` interfaces: it ends at one of length 0, and at
-- the first that fails.
pub select_loop : Host → ℕ → List Interface → Option (List Interface × ℕ)
unfolding wrap_select_interface
select_loop host zero intfs = some (intfs, 0)
select_loop host (suc n) [] = some ([], 0)
select_loop host (suc n) (intf ∷ intfs) =
    if intf.length == 0 then some (intf ∷ intfs, 0) else elim (wrap_select_interface host intf) [
      | none ↦ none
      | some (intf', status) ↦
          if status == 0
          then (elim (select_loop host n intfs) [
            | none ↦ none
            | some (rest, st) ↦ some (intf' ∷ rest, st)
          ])
          else some (intf' ∷ intfs, status)
    ]

-- The configuration's value and number of interfaces, or `none` for NULL, with which all urbs are killed
-- (`kill` is usb_kill_urb) and the device's configuration is reset.
pub wrap_select_configuration :
    Host
    → (Urbs → ℕ → Urbs)
    → Urbs
    → Option (ℕ × ℕ)
    → List Interface
    → Option (Urbs × List Interface × ℕ)
unfolding select_loop
wrap_select_configuration host kill s none intfs =
    some (kill_all_urbs kill true s, intfs, wrap_urb_status host.reset_configuration)
wrap_select_configuration host kill s (some (value, n)) intfs =
    let ret = host.set_configuration value in
    let selected : Option (List Interface × ℕ) =
      if ltb_ℤ ret (pos 0) then some (intfs, wrap_urb_status ret) else select_loop host n intfs in
    elim selected [ none ↦ none | some (intfs', status) ↦ some (s, intfs', status) ]

-- The state of the port; 0 is USB_STATE_NOTATTACHED, 7 USB_STATE_CONFIGURED, 8 USB_STATE_SUSPENDED.
pub wrap_get_port_status : ℕ → ℕ → ℕ
wrap_get_port_status state status =
    let connected = bit_or status 2 in
    if state == 0 || state == 8
    then status
    else if state == 7
    then bit_or connected 1
    else connected

-- The recipient that a feature request of the driver names: a device, an interface or an endpoint.
unfoldable pub feature_recipient : ℕ → ℕ
feature_recipient function = (function - 0x0D) % 3

-- A feature request that reaches Linux does so with a recipient that is not the one that the driver
-- named: a request to the device goes to an interface, and those to an interface or an endpoint name
-- no recipient at all. The request, the feature and the index are right.
feature_misses_recipient :
    (function feature index : ℕ) (msg : ControlMsg)
    → feature_msg function feature index ≡ some msg
    → (msg.value ≡ feature)
      × (msg.index ≡ index)
      × (msg.request ≡ (if leb function 0x0F then 3 else 1))
      × (msg.request_type % 32 ≢ feature_recipient function)
      × (msg.request_type % 32
          ≡ (if feature_recipient function == 0 then 1 else 3 + feature_recipient function))
unfolding feature_msg feature_recipient
feature_misses_recipient function feature index msg e =
    (ground arith, ground arith, ground arith, λ r. ground arith, ground arith)

-- wrap_usb_get_string stops at the first answer that is a count of bytes above 0 or -EPIPE, and else
-- returns the third; so it asks at most three times.
get_string_tries :
    (answer : ℕ → ℤ)
    → (try : ℕ) × (try < 3)
      × (wrap_usb_get_string answer ≡ answer try)
      × ((try ≡ 2) ⊎ (((ltb_ℤ (pos 0) (answer try)) || (eqb_ℤ (answer try) (errno 32))) ≡ true))
unfolding wrap_usb_get_string get_string_from
get_string_tries answer =
    elim (Bool-cases ((ltb_ℤ (pos 0) (answer 0)) || (eqb_ℤ (answer 0) (errno 32)))) [
      | inl first ↦ (0, omega arith, ground arith, inr first)
      | inr on ↦ elim (Bool-cases ((ltb_ℤ (pos 0) (answer 1)) || (eqb_ℤ (answer 1) (errno 32)))) [
        | inl second ↦ (1, omega arith, ground arith, inr second)
        | inr third ↦ (2, omega arith, ground arith, inl refl)
      ]
    ]
