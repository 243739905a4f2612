-- ===== src/Robot/Receive.antt =====
-- DensoRobot::ParseRecvParameter of denso_robot_core/src/denso_robot.cpp: what slvMove gives back.
pub mod Cycles
pub mod Poses
pub mod Answer
use denso_robot_ros.Prelude.{
  ℕ, ◌+◌, ◌%◌, ◌^◌, List, Option, none, some, length, take, drop, Bool, true, false, not, ◌==◌,
  if◌then◌else◌,
}
use denso_robot_ros.Hresult.{Hresult, Outcome, ok, fault, s_ok, e_fail}
use denso_robot_ros.Variant.{
  Variant, Variants, plain, bstr, null_array, scalar_array, bstr_array, variant_array, nil, cons,
  count_variants,
}
use denso_robot_ros.Variant.Vt
use denso_robot_ros.Robot.{
  Robot, has_flag, pose_type, fmt_time, fmt_handio, fmt_current, fmt_miniio, fmt_userio,
}
use denso_robot_ros.Robot.Send.{one_if}

-- Where the pose goes: `position`, `joint` and `trans`.
pub data PoseKind : Type 0 where
  position_only joint_only trans_only position_joint trans_joint : PoseKind

unfoldable pub pose_kind : ℕ → Option PoseKind
pose_kind type =
    if type == 1
    then some position_only
    else if type == 2
    then some joint_only
    else if type == 3
    then some trans_only
    else if type == 4
    then some position_joint
    else if type == 5
    then some trans_joint
    else none

-- `j1` and `j2`
abbrev pub first_joints : PoseKind → ℕ
first_joints position_only = 7
first_joints joint_only = 8
first_joints trans_only = 10
first_joints position_joint = 7
first_joints trans_joint = 10

abbrev pub second_joints : PoseKind → ℕ
second_joints position_only = 0
second_joints joint_only = 0
second_joints trans_only = 0
second_joints position_joint = 8
second_joints trans_joint = 8

-- The two copies into the vectors of the pose.
abbrev pub store_pose : PoseKind → List ℕ → Robot → Robot
store_pose position_only xs r = record r { position = xs }
store_pose joint_only xs r = record r { joint = xs }
store_pose trans_only xs r = record r { trans = xs }
store_pose position_joint xs r = record r { position = take 7 xs; joint = drop 7 xs }
store_pose trans_joint xs r = record r { trans = take 10 xs; joint = drop 10 xs }

-- What a part leaves: a code that ends the function, or the elements behind it; and the members.
pub data Part : Type 0 where
  stop : Hresult → Robot → Part
  next : Variants → Robot → Part
  broken : Part

abbrev pub and_then : Part → (Variants → Robot → Part) → Part
and_then (stop hr r) k = stop hr r
and_then (next vs r) k = k vs r
and_then broken k = broken

-- The readers of `pvnt[offset]`. An array whose `parray` is NULL is read through it.
abbrev pub with_int : Variant → (ℕ → Robot) → Robot → Variants → Part
with_int (plain vt bits) k r vs = if vt == Vt.i4 then next vs (k (bits % 2 ^ 32)) else stop e_fail r
with_int (bstr s) k r vs = stop e_fail r
with_int (null_array vt) k r vs = stop e_fail r
with_int (scalar_array vt lb xs) k r vs = stop e_fail r
with_int (bstr_array lb ss) k r vs = stop e_fail r
with_int (variant_array lb ws) k r vs = stop e_fail r

-- An array of VT_R8 of so many elements, if that is asked for, or of VT_UI1.
abbrev pub with_array : ℕ → Option ℕ → Variant → (List ℕ → Robot) → Robot → Variants → Part
with_array want n (plain vt bits) k r vs = stop e_fail r
with_array want n (bstr s) k r vs = stop e_fail r
with_array want n (null_array vt) k r vs = if vt == want then broken else stop e_fail r
with_array want none (scalar_array vt lb xs) k r vs =
    if vt == want then next vs (k xs) else stop e_fail r
with_array want (some n) (scalar_array vt lb xs) k r vs =
    if vt == want then (if length xs == n then next vs (k xs) else stop e_fail r) else stop e_fail r
with_array want n (bstr_array lb ss) k r vs = stop e_fail r
with_array want n (variant_array lb ws) k r vs = stop e_fail r

-- A part that is in the format takes an element, of which there is one.
abbrev pub take_one : Bool → (Variant → Robot → Variants → Part) → Variants → Robot → Part
take_one false f vs r = next vs r
take_one true f nil r = broken
take_one true f (cons v vs) r = f v r vs

unfoldable pub read_time : Bool → Variants → Robot → Part
read_time b = take_one b (λ v r. with_int v (λ n. record r { timestamp = n }) r)

unfoldable pub read_pose : PoseKind → Variants → Robot → Part
read_pose kind = take_one true (λ v r.
    with_array Vt.r8 (some (first_joints kind + second_joints kind)) v (λ xs. store_pose kind xs r)
      r)

unfoldable pub read_mini_io : Bool → Variants → Robot → Part
read_mini_io b = take_one b (λ v r. with_int v (λ n. record r { recv_miniio = n }) r)

unfoldable pub read_user_io : Bool → Variants → Robot → Part
read_user_io b =
    take_one b (λ v r. with_array Vt.ui1 none v (λ xs. record r { recv_userio = xs }) r)

unfoldable pub read_hand_io : Bool → Variants → Robot → Part
read_hand_io b = take_one b (λ v r. with_int v (λ n. record r { recv_handio = n }) r)

unfoldable pub read_current : Bool → Variants → Robot → Part
read_current b = take_one b (λ v r. with_array Vt.r8 (some 8) v (λ xs. record r { current = xs }) r)

-- The flags of the format of what is received.
pub record Flags : Type 0 where
  pub ts : Bool
  pub mio : Bool
  pub uio : Bool
  pub hio : Bool
  pub crt : Bool

abbrev pub flags_of : ℕ → Flags
flags_of format = record {
  ts = has_flag fmt_time format;
  mio = has_flag fmt_miniio format;
  uio = has_flag fmt_userio format;
  hio = has_flag fmt_handio format;
  crt = has_flag fmt_current format;
}

-- `num`
abbrev pub num_parts : Flags → ℕ
num_parts f = 1 + one_if f.ts + one_if f.hio + one_if f.mio + one_if f.uio + one_if f.crt

unfoldable pub read_parts : PoseKind → Flags → Variants → Robot → Part
read_parts kind f vs r = and_then (read_time f.ts vs r) (λ vs1 r1.
    and_then (read_pose kind vs1 r1) (λ vs2 r2. and_then (read_mini_io f.mio vs2 r2) (λ vs3 r3.
      and_then (read_user_io f.uio vs3 r3)
        (λ vs4 r4. and_then (read_hand_io f.hio vs4 r4) (read_current f.crt)))))

abbrev pub ended : Part → Outcome (Hresult × Robot)
ended (stop hr r) = ok (hr, r)
ended (next vs r) = ok (s_ok, r)
ended broken = fault

-- "Pose only", or the parts.
unfoldable pub read_answer : PoseKind → Flags → Variant → Robot → Outcome (Hresult × Robot)
read_answer kind f (plain vt bits) r = ok (e_fail, r)
read_answer kind f (bstr s) r = ok (e_fail, r)
read_answer kind f (null_array vt) r =
    if vt == Vt.r8 then fault else if vt == Vt.variant then fault else ok (e_fail, r)
read_answer kind f (scalar_array vt lb xs) r =
    if vt == Vt.r8
    then (if length xs == first_joints kind + second_joints kind
        then ok (s_ok, store_pose kind xs r)
        else ok (e_fail, r))
    else ok (e_fail, r)
read_answer kind f (bstr_array lb ss) r = ok (e_fail, r)
read_answer kind f (variant_array lb vs) r =
    if count_variants vs == num_parts f then ended (read_parts kind f vs r) else ok (e_fail, r)

-- ParseRecvParameter: the code, and the members after the call.
unfoldable pub parse_recv_parameter : Variant → Robot → Outcome (Hresult × Robot)
parse_recv_parameter v r = elim (pose_kind (pose_type r.recvfmt)) [
  | none ↦ ok (e_fail, r)
  | some kind ↦ read_answer kind (flags_of r.recvfmt) v r
]
