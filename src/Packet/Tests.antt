-- ===== src/Packet/Tests.antt =====
-- Concrete packets, through the functions of bcap_core/src/bcap_common.c.
use Prim.Native.Nat.{min}
use denso_robot_ros.Prelude.{
  ℕ, ◌+◌, List, false, suc, ◌^◌, ◌%◌, ◌≤◌, ◌≡◌, refl, [], ◌∷◌, true, some, ltb, leb, leb→le,
  if◌then◌else◌, none, take, drop, ◌++◌, arith,
}
use denso_robot_ros.Hresult.{Hresult, s_ok, e_too_much_data, ok, failed, ◌>>=◌, e_invalidarg}
use denso_robot_ros.Bytes.{le_bytes, le_bytes_all}
use denso_robot_ros.Variant.{
  Variants, plain, bstr, scalar_array, variant_array, nil, cons, vt_of, array_elem_size, value_size,
  count_variants, wcslen, sys_string_len,
}
use denso_robot_ros.Variant.Alloc.{elem_bytes}
use denso_robot_ros.Codec.Wire.{
  wire_args, wire_count, wire_variant, wire_value, wire_bstr, wire_plain, wire_scalars,
  wire_variants,
}
use denso_robot_ros.Codec.Date.{DateFloats}
use denso_robot_ros.Codec.Received.{AllDecodable}
use denso_robot_ros.Packet.{Packet, calc_size_packet, packet2bytary}
use denso_robot_ros.Packet.Decode.{allocate, accept_argc, bytary2packet}
use denso_robot_ros.Packet.Encode.{packet2bytary-wire_packet}
use denso_robot_ros.Packet.Exchange.{bytary2packet-packet2bytary}
use denso_robot_ros.Packet.RoundTrip.{IsPacket, received_packet}
use denso_robot_ros.Packet.Size.{calc_size_packet-wire_size}
use denso_robot_ros.Device.{conn_com, conn_tcp}
use denso_robot_ros.Packet.Send.{Common, check_conn_param, len_max, crc_room, bcap_send}
use denso_robot_ros.Packet.OnLine.{on_line, bcap_send-on_line}
use denso_robot_ros.Packet.Receive.{Recv, check_recv_param, bcap_recv}
use denso_robot_ros.Packet.Receive.Whole.{line_size, IsWelcome}
use denso_robot_ros.Packet.Receive.Looks.{IsStream}
use denso_robot_ros.Packet.Receive.Serial.{GivesPieces, serial_device, bcap_recv-serial}
use denso_robot_ros.Packet.Receive.Pipe.{send_all, recv_all, recv_all-send_all}
use denso_robot_ros.Packet.Receive.Stream.{tcp_device, bcap_recv-stream}
use denso_robot_ros.Packet.Wire.{wire_size, wire_packet, IsSendable}

-- A clock that counts in seconds from 1970.
abbrev seconds : DateFloats
seconds = record { to_double = λ t. t; is_positive = λ d. ltb 0 d; from_double = λ d. d }

-- "b-C", 42 as VT_I4, and an array that holds an array of two VT_R8.
abbrev arguments : Variants
arguments =
    cons (bstr (some (98 ∷ 45 ∷ 67 ∷ [])))
      (cons (plain 3 42) (cons (variant_array 0 (cons (scalar_array 5 0 (7 ∷ 8 ∷ [])) nil)) nil))

abbrev request : Packet
request = record { serial = 1; reserv = 0; id = 3; argc = 3; args = arguments }

request-IsSendable : IsSendable request
unfolding count_variants
request-IsSendable = record {
  counted = refl;
  encodable = (tt, (tt, ((omega arith, omega arith, ((omega arith, omega arith), tt)), tt)));
}

request-AllDecodable : AllDecodable arguments
unfolding count_variants sys_string_len wcslen elem_bytes
request-AllDecodable = (
  omega arith,
  (
    (omega arith, refl, ground arith),
    ((omega arith, ((ground arith, ground arith, (8, refl), omega arith), tt)), tt),
  ),
)

request-IsPacket : IsPacket request
request-IsPacket = record {
  serial_lt = omega arith;
  reserv_lt = omega arith;
  id_lt = omega arith;
  argc_lt = omega arith;
}

request_small : wire_size seconds request ≤ 2 ^ 31
unfolding wire_size wire_args wire_variant wire_count vt_of array_elem_size value_size
    count_variants sys_string_len wcslen wire_value wire_bstr wire_plain wire_scalars wire_variants
    le_bytes le_bytes_all
request_small = leb→le _ _ refl

request_room : wire_size seconds request + 2 ≤ 2 ^ 31
unfolding wire_size wire_args wire_variant wire_count vt_of array_elem_size value_size
    count_variants sys_string_len wcslen wire_value wire_bstr wire_plain wire_scalars wire_variants
    le_bytes le_bytes_all
request_room = leb→le _ _ refl

packet2bytary-wire_packet_example : packet2bytary seconds request 100 ≡ (
    if leb (wire_size seconds request) 100
    then ok (wire_packet seconds request 100)
    else failed e_invalidarg)
packet2bytary-wire_packet_example =
    packet2bytary-wire_packet seconds request 100 (omega arith) request-IsSendable

calc_size_packet-wire_size_example : calc_size_packet request ≡ wire_size seconds request % 2 ^ 32
calc_size_packet-wire_size_example = calc_size_packet-wire_size seconds request request-IsSendable

bytary2packet-packet2bytary_example :
    (packet2bytary seconds request (calc_size_packet request) >>= λ bytes.
    bytary2packet seconds
      (λ _. true)
      (suc (calc_size_packet request))
      bytes
      (calc_size_packet request)
      allocate)
    ≡ ok (received_packet seconds request)
unfolding accept_argc
bytary2packet-packet2bytary_example =
    bytary2packet-packet2bytary seconds (λ _. true) (λ n. refl) request allocate request-IsPacket
      request-IsSendable request-AllDecodable refl request_small

-- A device whose state is the bytes that it was given last.
abbrev serial_line : Common
serial_line = record { sock = 5; type = conn_com; has_arg = false; has_send = true }

abbrev keep : List ℕ → List ℕ → Hresult × List ℕ
keep bytes w = (s_ok, bytes)

bcap_send-on_line_example : bcap_send seconds (λ _. true) keep serial_line request [] ≡ (
    if ltb (len_max conn_com) (wire_size seconds request + crc_room conn_com)
    then failed e_too_much_data
    else ok (keep (on_line seconds request conn_com) []))
unfolding check_conn_param
bcap_send-on_line_example =
    bcap_send-on_line seconds (λ _. true) keep request [] (λ n. refl) request-IsSendable
      request_room serial_line refl refl

client_room : IsWelcome seconds (λ _. true) request allocate
client_room = record {
  memory = λ n. refl;
  is = request-IsPacket;
  sendable = request-IsSendable;
  decodable = request-AllDecodable;
  accepted = unfold accept_argc in refl;
  small = request_room;
}

request-le : line_size seconds request conn_com ≤ 503
unfolding wire_size wire_args wire_variant wire_count vt_of array_elem_size value_size
    count_variants sys_string_len wcslen wire_value wire_bstr wire_plain wire_scalars wire_variants
    le_bytes le_bytes_all
request-le = leb→le _ _ refl

-- A serial line that gives seven bytes at a time.
abbrev sevens : Recv (List ℕ)
sevens peek n w = record {
  hr = s_ok;
  bytes = take (min n 7) w;
  stored = none;
  from = 0;
  world = drop (min n 7) w;
}

sevens-GivesPieces : GivesPieces sevens (λ w. w)
sevens-GivesPieces = record {
  size = λ n w. min n 7;
  size_pos = λ n w h k. omega arith;
  size_le = λ n w. omega arith;
  hr = λ n w h. refl;
  bytes = λ n w h. refl;
  rest = λ n w h. refl;
}

bcap_recv-serial_example :
    (w' : List ℕ) × (bcap_recv seconds
        (λ _. true)
        (λ n. [])
        sevens
        (serial_device 5 false true)
        true
        true
        600
        allocate
        0
        (on_line seconds request conn_com)
      ≡ ok (record {
        hr = s_ok;
        packet = some (received_packet seconds request);
        peer = record { addr = 0; flag_init = false };
        world = w';
      }))
    × (w' ≡ [])
bcap_recv-serial_example =
    bcap_recv-serial seconds (λ _. true) (λ n. []) sevens 5 false true true 600 0 request allocate
      (λ w. w) (on_line seconds request conn_com) (unfold check_recv_param in refl)
      sevens-GivesPieces client_room request-le (omega (arith, request-le)) refl

-- A TCP stream whose state is the bytes that have arrived.
abbrev arrived : Recv (List ℕ)
arrived peek n w = record {
  hr = s_ok;
  bytes = take n w;
  stored = none;
  from = 0;
  world = if peek then w else drop n w;
}

arrived-IsStream : IsStream arrived (λ w. w)
arrived-IsStream = record {
  hr = λ peek n w h k. refl;
  bytes = λ peek n w h k. refl;
  peeked = λ n w. refl;
  taken = λ n w. refl;
}

bcap_recv-stream_example :
    (w' : List ℕ) × (bcap_recv seconds
        (λ _. true)
        (λ n. [])
        arrived
        (tcp_device 5 false true)
        true
        true
        6
        allocate
        0
        ((0 ∷ 7 ∷ []) ++ (on_line seconds request conn_tcp ++ 1 ∷ []))
      ≡ ok (record {
        hr = s_ok;
        packet = some (received_packet seconds request);
        peer = record { addr = 0; flag_init = false };
        world = w';
      }))
    × (w' ≡ 1 ∷ [])
bcap_recv-stream_example =
    bcap_recv-stream seconds (λ _. true) (λ n. []) arrived 5 false true true 5 0 request allocate
      (λ w. w) ((0 ∷ 7 ∷ []) ++ (on_line seconds request conn_tcp ++ 1 ∷ [])) (0 ∷ 7 ∷ []) (1 ∷ [])
      (unfold check_recv_param in refl) arrived-IsStream client_room ((λ e. cc), ((λ e. cc), tt))
      refl (omega arith)

-- A datagram, which comes from the address 77.
abbrev datagram : Recv (List ℕ)
datagram peek n w = record { hr = s_ok; bytes = take n w; stored = none; from = 77; world = [] }

-- Two packets through the connection.
abbrev append_bytes : List ℕ → List ℕ → Hresult × List ℕ
append_bytes bytes w = (s_ok, w ++ bytes)

recv_all-send_all_example :
    (w' : List ℕ) × ((send_all seconds
          (λ _. true)
          (λ n. [])
          append_bytes
          arrived
          5
          false
          true
          allocate
          0
          (request ∷ request ∷ [])
          []
        >>= recv_all seconds (λ _. true) (λ n. []) append_bytes arrived 5 false true allocate 0 2)
      ≡ ok (received_packet seconds request ∷ received_packet seconds request ∷ [], w'))
    × (w' ≡ [])
recv_all-send_all_example =
    recv_all-send_all seconds (λ _. true) (λ n. []) append_bytes arrived 5 false true allocate 0
      (λ w. w) (request ∷ request ∷ []) [] (λ bytes w. refl) arrived-IsStream
      (unfold check_conn_param in refl) (unfold check_recv_param in refl)
      (client_room, (client_room, tt)) refl
