-- ===== src/Actor/Mailbox/Registering.antt =====
-- Registering keeps the mailbox and the application's table in step, and which bodies are decoded.
use actorgo.Common.{
  ℕ, ◌≡◌, refl, ◌⊎◌, inl, inr, ◌↔◌, true, Option, none, some, Text, Bytes, arith, Option-cases,
  ℕ_discrete,
}
use actorgo.Common.Int.{ℤ, eq_ℤ}
use actorgo.Common.Dict.{insert, lookup-insert}
use actorgo.Facade.Path.{is_parent, path_string}
use actorgo.Facade.Result.{raw, value}
use actorgo.Proto.Packet.{codec_json, codec_protobuf}
use actorgo.Method.Table.{Table, RegisteredMethod, register, find}
use actorgo.Method.Table.Catalog.{register_result}
use actorgo.Method.Invoker.{GoType, Adapted, AdaptResult, adapted, refused}
use actorgo.Actor.Mailbox.{
  MethodEntry, Owner, Panic, Registry, install, publish, register_method, get_method, BodyCodecs,
  decoded, decode_payload, codec_or_default, decode_body,
}

module _ {H : Type 0} where
  publish_panics :
      (r : Registry H) (owner : Owner) (method : ℕ) (h : H) (a : Adapted) (t : Option Table)
      (e : Panic)
      → (publish r owner method h a t).1 ≡ some e
      → (publish r owner method h a t).0 ≡ r
  unfolding publish
  publish_panics r owner method h a none e k = refl
  publish_panics r owner method h a (some t) e k =
      elim (Option-cases (register t method (path_string owner.path) a.msg_type).1) [
        | inl fine ↦ absurd (ground arith)
        | inr (why, failed) ↦ ground arith
      ]

  -- A Register that panics changes neither the mailbox nor the method table.
  pub register_method_panics :
      (r : Registry H) (owner : Option Owner) (method : ℕ) (handler : Option (H × AdaptResult))
      (e : Panic)
      → (register_method r owner method handler).1 ≡ some e
      → (register_method r owner method handler).0 ≡ r
  unfolding register_method
  register_method_panics r owner method none e h = refl
  register_method_panics r owner method (some (f, refused x)) e h = ground arith
  register_method_panics r none method (some (f, adapted a)) e h = ground arith
  register_method_panics r (some owner) method (some (f, adapted a)) e h =
      ground (arith, publish_panics r owner method f a r.table)

  -- What the table has of the methods of a top-level actor's mailbox.
  abbrev pub IsPublished : Registry H → Text → Type 0
  IsPublished r target =
      (t : Table) × (r.table ≡ some t)
      × ((method : ℕ) (e : MethodEntry H)
          → get_method r.mailbox method ≡ some e
          → (m : RegisteredMethod) × (find t method ≡ some m) × (m.target ≡ target))

  publish-IsPublished :
      (r : Registry H) (owner : Owner) (method : ℕ) (h : H) (a : Adapted)
      → IsPublished r (path_string owner.path)
      → IsPublished (publish r owner method h a r.table).0 (path_string owner.path)
  unfolding publish
  publish-IsPublished r owner method h a (t, there, all) =
      elim (register_result t method (path_string owner.path) a.msg_type) [
        | inr (failed, same) ↦
            elim (Option-cases (register t method (path_string owner.path) a.msg_type).1) [
              | inl fine ↦ absurd (failed fine)
              | inr (why, k) ↦ (t, ground arith, λ m e g. all m e (ground arith))
            ]
        | inl (fine, added) ↦ (
          insert ℕ_discrete method
              (record { msg_type = a.msg_type; target = path_string owner.path }) t,
          ground arith,
          λ m e g. published m e (ground arith),
        )
      ]
    where
      published :
          (m : ℕ) (e : MethodEntry H)
          → get_method (install r.mailbox method h a) m ≡ some e
          → (x : RegisteredMethod) × (find
                (insert ℕ_discrete method
                  (record { msg_type = a.msg_type; target = path_string owner.path })
                  t)
                m
              ≡ some x)
            × (x.target ≡ path_string owner.path)
      published m e g = elim (ℕ_discrete method m) [
        | yes same ↦ (
          record { msg_type = a.msg_type; target = path_string owner.path },
          unfold find in
              ground (
                arith,
                lookup-insert ℕ_discrete m method
                    (record { msg_type = a.msg_type; target = path_string owner.path }) t,
              ),
          refl,
        )
        | no ne ↦
            let old = all m e (
              unfold get_method install in
              ground (
                arith,
                lookup-insert ℕ_discrete m method
                    (record {
                      invoke = h;
                      request_type = some a.request_type;
                      supports_protobuf = a.protobuf;
                    })
                    r.mailbox.method_map,
              )) in
            (
              old.0,
              unfold find in
                  ground (
                    arith,
                    old.1,
                    lookup-insert ℕ_discrete m method
                        (record { msg_type = a.msg_type; target = path_string owner.path }) t,
                  ),
              old.2,
            )
      ]

  pub register_method_cases :
      (r : Registry H) (owner : Owner) (method : ℕ) (h : H) (a : Adapted)
      → is_parent owner.path ≡ true
      → ((register_method r (some owner) method (some (h, adapted a))).0 ≡ r)
        ⊎ ((register_method r (some owner) method (some (h, adapted a))).0
            ≡ (publish r owner method h a r.table).0)
  unfolding register_method
  register_method_cases r owner method h a top = ground arith

  -- Registering, with or without success, keeps every method of a top-level actor's mailbox in the
  -- application's table, with the actor as its target.
  pub register_method-IsPublished :
      (r : Registry H) (owner : Owner) (method : ℕ) (handler : Option (H × AdaptResult))
      → is_parent owner.path ≡ true
      → IsPublished r (path_string owner.path)
      → IsPublished (register_method r (some owner) method handler).0 (path_string owner.path)
  unfolding register_method
  register_method-IsPublished r owner method none top v = v
  register_method-IsPublished r owner method (some (f, refused x)) top v =
      let same : (register_method r (some owner) method (some (f, refused x))).0 ≡ r =
        ground arith in
      rw same v
  register_method-IsPublished r owner method (some (f, adapted a)) top v =
      elim (register_method_cases r owner method f a top) [
        | inl same ↦ rw same v
        | inr new ↦ rw new (publish-IsPublished r owner method f a v)
      ]

-- A body is decoded exactly if the method has a request type, the codec (or the default, where the
-- context names none) is JSON, or protobuf for a method of protobuf messages, and the application's
-- codecs read the body.
pub decode_payload_iff :
    {V H : Type 0} (codecs' : Option (BodyCodecs V)) (codec : ℤ) (entry : MethodEntry H)
    (body : Bytes) (v : V)
    → (decode_payload codecs' codec entry (raw body) ≡ decoded (value v)) ↔ (
        (c : BodyCodecs V) × (t : GoType) × (codecs' ≡ some c)
        × (entry.request_type ≡ some t)
        × ((eq_ℤ (codec_or_default codecs' codec) codec_json ≡ true)
            ⊎ ((eq_ℤ (codec_or_default codecs' codec) codec_protobuf ≡ true)
                × (entry.supports_protobuf ≡ true)))
        × (c.unmarshal (codec_or_default codecs' codec) body t ≡ some v))
unfolding decode_payload
decode_payload_iff {V} codecs' codec entry body v =
    (λ h. sound codecs' entry.request_type refl refl h, λ w. ground arith)
  where
    sound :
        (cs : Option (BodyCodecs V)) (ty : Option GoType)
        → codecs' ≡ cs
        → entry.request_type ≡ ty
        → decode_body cs (codec_or_default codecs' codec) entry.supports_protobuf body ty
          ≡ decoded (value v)
        → (c : BodyCodecs V) × (t : GoType) × (codecs' ≡ some c)
          × (entry.request_type ≡ some t)
          × ((eq_ℤ (codec_or_default codecs' codec) codec_json ≡ true)
              ⊎ ((eq_ℤ (codec_or_default codecs' codec) codec_protobuf ≡ true)
                  × (entry.supports_protobuf ≡ true)))
          × (c.unmarshal (codec_or_default codecs' codec) body t ≡ some v)
    sound cs none ec et h = absurd (unfold decode_body in ground arith)
    sound none (some t) ec et h = absurd (unfold decode_body in ground arith)
    sound (some c) (some t) ec et h =
        unfold decode_body in
        (
          c,
          t,
          ec,
          et,
          ground arith,
          elim (Option-cases (c.unmarshal (codec_or_default codecs' codec) body t)) [
            | inl bad ↦ absurd (ground arith)
            | inr (x, good) ↦ ground arith
          ],
        )
