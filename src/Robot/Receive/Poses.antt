-- ===== src/Robot/Receive/Poses.antt =====
-- Where ParseRecvParameter of denso_robot_core/src/denso_robot.cpp puts a pose.
use denso_robot_ros.Prelude.{
  ℕ, ◌+◌, ◌≡◌, refl, ap, sym, ◌∙◌, length-append, append-nil, take-append_self, drop-append_self,
  List, ◌++◌, some, length, take, drop, arith,
}
use denso_robot_ros.Robot.{Robot}
use denso_robot_ros.Robot.Receive.{
  PoseKind, position_only, joint_only, trans_only, position_joint, trans_joint, pose_kind,
  first_joints, second_joints, store_pose,
}
use denso_robot_ros.Robot.Receive.Cycles.{
  Cycle, IsCycle, pick, with_position, with_trans, with_joint, pose_of,
}

-- A pose that is read goes to the members of its type.
pub record Places (t : ℕ) (kind : PoseKind) : Type 0 where
  pub known : pose_kind t ≡ some kind
  pub long : (c : Cycle) → IsCycle c → length (pose_of t c) ≡ first_joints kind + second_joints kind
  pub stores :
      (c : Cycle) (r : Robot)
      → IsCycle c
      → store_pose kind (pose_of t c) r ≡ record r {
        position = pick (with_position t) c.position r.position;
        trans = pick (with_trans t) c.trans r.trans;
        joint = pick (with_joint t) c.joint r.joint;
      }

-- Two vectors that stand behind each other are taken apart.
halves :
    (n : ℕ) (xs ys : List ℕ) → length xs ≡ n → (take n (xs ++ ys) ≡ xs) × (drop n (xs ++ ys) ≡ ys)
halves n xs ys h = (
  ap (λ k. take k (xs ++ ys)) (sym h) ∙ take-append_self xs ys,
  ap (λ k. drop k (xs ++ ys)) (sym h) ∙ drop-append_self xs ys,
)

pub position-Places : Places 1 position_only
unfolding pose_kind
position-Places = record {
  known = refl;
  long = λ c h. ap length (append-nil c.position) ∙ h.position_long;
  stores = λ c r h. ap (λ xs. record r { position = xs }) (append-nil c.position);
}

pub joint-Places : Places 2 joint_only
unfolding pose_kind
joint-Places = record { known = refl; long = λ c h. h.joint_long; stores = λ c r h. refl }

pub trans-Places : Places 3 trans_only
unfolding pose_kind
trans-Places = record {
  known = refl;
  long = λ c h. ap length (append-nil c.trans) ∙ h.trans_long;
  stores = λ c r h. ap (λ xs. record r { trans = xs }) (append-nil c.trans);
}

pub position_joint-Places : Places 4 position_joint
unfolding pose_kind
position_joint-Places = record {
  known = refl;
  long = λ c h. omega (arith, length-append c.position c.joint, h.position_long, h.joint_long);
  stores = λ c r h.
      let (front, back) = halves 7 c.position c.joint h.position_long in rw (front, back) refl;
}

pub trans_joint-Places : Places 5 trans_joint
unfolding pose_kind
trans_joint-Places = record {
  known = refl;
  long = λ c h. omega (arith, length-append c.trans c.joint, h.trans_long, h.joint_long);
  stores =
      λ c r h. let (front, back) = halves 10 c.trans c.joint h.trans_long in rw (front, back) refl;
}
