-- ===== src/Discovery/Nats/Agreement.antt =====
-- Every client knows the members that the master knows.
use actorgo.Common.{
  ◌≡◌, ◌≢◌, refl, inl, inr, none, List, [], ◌∷◌, Text, Text_discrete, arith, Option-cases,
  Bool-cases,
}
use actorgo.Common.Dict.{lookup}
use actorgo.Discovery.Default.{Member, Discovery, pre_init, same, get_member, add_member}
use actorgo.Discovery.Default.Members.{
  IsKeyed, add_member-IsKeyed, remove_member-IsKeyed, pre_init-IsKeyed,
}
use actorgo.Discovery.Nats.{
  members_for, on_register, receive_members, on_added, on_unregister, server_init, Network,
  all_added, all_unregistered, without_node, join_network, leave_network, crash,
}
use actorgo.Discovery.Nats.Knowing.{
  known, known-add_member, known-remove_member, known-receive_members, IsKeyed-OwnKeys,
  member_of-members_for,
}

-- A client knows of every node what the master knows.
abbrev pub Agrees : Discovery → Discovery → Type 0
Agrees master d = (node : Text) → known d node ≡ known master node

on_added-Agrees :
    (master d : Discovery) (m : Member)
    → m.node_id ≢ []
    → Agrees master d
    → Agrees (add_member master m) (on_added d m)
unfolding on_added get_member
on_added-Agrees master d m named agrees node = elim (Option-cases (known d m.node_id)) [
  | inl new ↦
      ground
        (arith, new, named, agrees node, known-add_member d m node, known-add_member master m node)
  | inr (x, there) ↦ elim (Text_discrete m.node_id node) [
    | yes eq ↦ ground (arith, there, named, eq, agrees node, known-add_member master m node)
    | no ne ↦ ground (arith, there, named, ne, agrees node, known-add_member master m node)
  ]
]

new_client-Agrees :
    (master : Discovery) (m : Member)
    → m.node_id ≢ []
    → known master m.node_id ≡ none
    → IsKeyed (add_member master m).members
    → Agrees (add_member master m) (
        on_added (receive_members pre_init (members_for m.node_id (add_member master m).members)) m)
unfolding on_added get_member
new_client-Agrees master m named fresh keyed node =
    let d = receive_members pre_init (members_for m.node_id (add_member master m).members) in
    let keys = IsKeyed-OwnKeys (add_member master m).members keyed.distinct keyed.keyed in
    let got =
      known-receive_members (members_for m.node_id (add_member master m).members) pre_init node in
    let own =
      known-receive_members (members_for m.node_id (add_member master m).members) pre_init
        m.node_id in
    let at = member_of-members_for m.node_id node (add_member master m).members keys in
    let at_own = member_of-members_for m.node_id m.node_id (add_member master m).members keys in
    let nothing : (x : Text) → known pre_init x ≡ none = λ x. nothing_known x in
    ground (
      arith,
      named,
      fresh,
      got,
      own,
      at,
      at_own,
      nothing node,
      nothing m.node_id,
      known-add_member d m node,
      known-add_member master m node,
    )
  where
    nothing_known : (x : Text) → known pre_init x ≡ none
    nothing_known x = unfold pre_init lookup in refl

on_unregister-Agrees :
    (self own : Text) (master d : Discovery) (m : Member)
    → m.node_id ≢ self
    → m.node_id ≢ own
    → Agrees master d
    → Agrees (on_unregister self master m) (on_unregister own d m)
unfolding on_unregister
on_unregister-Agrees self own master d m ne ne' agrees node = ground (
  arith,
  ne,
  ne',
  agrees node,
  known-remove_member d m.node_id node,
  known-remove_member master m.node_id node,
)

-- Every running client agrees with the master.
abbrev pub AllAgree : Discovery → List (Text × Discovery) → Type 0
AllAgree master [] = Unit
AllAgree master ((node, d) ∷ cs) = Agrees master d × AllAgree master cs

all_added-AllAgree :
    (master : Discovery) (m : Member) (cs : List (Text × Discovery))
    → m.node_id ≢ []
    → AllAgree master cs
    → AllAgree (add_member master m) (all_added m cs)
unfolding all_added
all_added-AllAgree master m [] named h = tt
all_added-AllAgree master m ((node, d) ∷ cs) named h =
    (on_added-Agrees master d m named h.0, all_added-AllAgree master m cs named h.1)

without_node-AllAgree :
    (master : Discovery) (node : Text) (cs : List (Text × Discovery))
    → AllAgree master cs
    → AllAgree master (without_node node cs)
unfolding without_node
without_node-AllAgree master node [] h = tt
without_node-AllAgree master node ((other, d) ∷ cs) h =
    let rest = without_node-AllAgree master node cs h.1 in
    elim (Bool-cases (same other node)) [
      | inl gone ↦ rw gone rest
      | inr stays ↦ rw stays (h.0, rest)
    ]

left-AllAgree :
    (self : Text) (master : Discovery) (m : Member) (cs : List (Text × Discovery))
    → m.node_id ≢ self
    → AllAgree master cs
    → AllAgree (on_unregister self master m) (without_node m.node_id (all_unregistered m cs))
unfolding without_node all_unregistered
left-AllAgree self master m [] ne h = tt
left-AllAgree self master m ((other, d) ∷ cs) ne h =
    let rest = left-AllAgree self master m cs ne h.1 in
    elim (Bool-cases (same other m.node_id)) [
      | inl gone ↦ rw gone rest
      | inr stays ↦
          let ne' : m.node_id ≢ other = λ e. ground (arith, e, stays) in
          rw stays (on_unregister-Agrees self other master d m ne ne' h.0, rest)
    ]

-- A client that the master does not know starts, a client stops, or one is gone without a word.
pub data NetworkStep (n : Network) : Network → Type 0 where
  joined :
      (m : Member)
      → m.node_id ≢ []
      → known n.master m.node_id ≡ none
      → NetworkStep n (join_network n m)
  left : (m : Member) → m.node_id ≢ n.master_id → NetworkStep n (leave_network n m)
  crashed : (node : Text) → NetworkStep n (crash n node)

pub data NetworkSteps (n : Network) : Network → Type 0 where
  no_step : NetworkSteps n n
  then_step : {u v : Network} → NetworkSteps n u → NetworkStep u v → NetworkSteps n v

record IsInStep (n : Network) : Type 0 where
  pub keyed : IsKeyed n.master.members
  pub agree : AllAgree n.master n.clients

NetworkStep-IsInStep : {n u : Network} → NetworkStep n u → IsInStep n → IsInStep u
NetworkStep-IsInStep {n} (joined m named fresh) k =
    unfold join_network on_register in
    record {
      keyed = add_member-IsKeyed n.master m k.keyed;
      agree =
          unfold all_added in
          (
            new_client-Agrees n.master m named fresh (add_member-IsKeyed n.master m k.keyed),
            all_added-AllAgree n.master m n.clients named k.agree,
          );
    }
NetworkStep-IsInStep {n} (left m ne) k =
    unfold leave_network in
    record {
      keyed = left_keyed m ne;
      agree = left-AllAgree n.master_id n.master m n.clients ne k.agree;
    }
  where
    left_keyed :
        (m : Member)
        → m.node_id ≢ n.master_id
        → IsKeyed (on_unregister n.master_id n.master m).members
    left_keyed m ne =
        unfold on_unregister in ground (arith, ne, remove_member-IsKeyed n.master m.node_id k.keyed)
NetworkStep-IsInStep {n} (crashed node) k =
    unfold crash in
    record { keyed = k.keyed; agree = without_node-AllAgree n.master node n.clients k.agree }

NetworkSteps-IsInStep : {n u : Network} → NetworkSteps n u → IsInStep n → IsInStep u
NetworkSteps-IsInStep no_step k = k
NetworkSteps-IsInStep (then_step s st) k = NetworkStep-IsInStep st (NetworkSteps-IsInStep s k)

-- From a network with the master alone, however clients join, leave and crash, every client that runs
-- knows exactly the members that the master knows, if messages are delivered at once and a client
-- joins under an id that the master does not know.
pub NetworkSteps-AllAgree :
    (master : Member) (n : Network)
    → NetworkSteps
        (record { master_id = master.node_id; master = server_init master; clients = [] })
        n
    → AllAgree n.master n.clients
NetworkSteps-AllAgree master n s =
    (NetworkSteps-IsInStep s (record {
      keyed = unfold server_init in add_member-IsKeyed pre_init master pre_init-IsKeyed;
      agree = tt;
    })).agree
