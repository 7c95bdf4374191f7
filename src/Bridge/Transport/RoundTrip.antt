-- ===== src/Bridge/Transport/RoundTrip.antt =====
-- The send side over Mesh against the receive side of another vehicle.
use mrs_uav_bluetooth.Bridge.Transport.Publish.{safe_peer_token, import_topic, publish, Publication}
use mrs_uav_bluetooth.Bridge.Transport.Receive.{
  find_entry, framed_channel, mesh_offset, is_own_opcode, mesh_sender_name, deliver_mesh,
  handle_mesh, Manager, Handled, Addressed,
}
use mrs_uav_bluetooth.Prelude.{
  ◌==◌, Bool-cases, is_some, if_cases, any, is_empty, Text, text_eq, refl, ◌∙◌, inl, inr, Bool, not,
  ◌&&◌, Option, none, leb, ℕ, ◌+◌, ◌*◌, ◌/◌, ◌%◌, ◌<◌, ◌≡◌, ap, true, false, some, List, arith,
}
use mrs_uav_bluetooth.Bridge.Transport.{
  imports, entry_key, frame_payload, unframe_payload, mesh_access, SharedTopic, BridgeEntry,
  BridgeRuntime, mesh,
}
use mrs_uav_bluetooth.Prelude.NatMap

-- The receiver has a bridge on the sender's channel, with its opcode and application key; it knows
-- the sender's address, and its runtime decodes the payload and can open the topic.
pub record MeshLink (runtime : BridgeRuntime) (m : Manager) (sender : SharedTopic)
    (entry : BridgeEntry) (source : ℕ) (name payload message : List ℕ) : Type 0 where
  pub channel_found : find_entry (entry_key mesh sender.channel_id) m.entries ≡ some entry
  pub channel_imports : imports entry.config.mode ≡ true
  pub channel_fits : sender.channel_id < 65536
  pub vendor_opcode : leb 0xc0 sender.mesh_vendor_opcode ≡ true
  pub same_opcode : entry.config.mesh_vendor_opcode ≡ sender.mesh_vendor_opcode
  pub same_company : entry.config.mesh_company_id ≡ sender.mesh_company_id
  pub sender_known : NatMap.find source m.mesh_peer_by_address ≡ some name
  pub topic_opens :
      runtime.opens_publisher (import_topic m.peers_prefix (safe_peer_token name) entry.config)
      ≡ true
  pub payload_decodes : runtime.decode_payload entry.config payload ≡ some message

not_both : (a b : Bool) → b ≡ true → (a && not b) ≡ true → ⊥
not_both true b h k = cc (h, k)
not_both false b h k = cc k

not_unknown :
    (o : Option Text) (b : Bool) (name : Text) → o ≡ some name → (not (is_some o) && b) ≡ true → ⊥
not_unknown none b name h k = cc h
not_unknown (some n) b name h k = cc k

module _ (runtime : BridgeRuntime) (m : Manager) (sender : SharedTopic) (entry : BridgeEntry)
    (source : ℕ) (name payload message : List ℕ)
    (link : MeshLink runtime m sender entry source name payload message) where
  keeps_opcode : mesh_offset (mesh_access sender payload) ≡ 3
  unfolding mesh_access frame_payload
  keeps_opcode = let vendor = link.vendor_opcode in ground (arith, vendor)

  unframes : unframe_payload (mesh_access sender payload) 3 ≡ some (sender.channel_id, payload)
  unfolding mesh_access frame_payload unframe_payload
  unframes =
      let whole : sender.channel_id % 256 + 256 * (sender.channel_id / 256 % 256)
          ≡ sender.channel_id =
        let fits = link.channel_fits in omega (arith, fits) in
      ap (λ c. some (c, payload)) whole

  own_opcode : is_own_opcode entry.config (mesh_access sender payload) ≡ true
  unfolding mesh_access frame_payload
  own_opcode =
      let opcode = link.same_opcode in
      let company = link.same_company in ground (arith, opcode, company)

  the_publication : Publication
  the_publication = record {
    topic = import_topic m.peers_prefix (safe_peer_token name) entry.config;
    message = message;
  }

  publishes :
      (publish runtime m.peers_prefix name payload false entry).sample ≡ some the_publication
  unfolding publish the_publication
  publishes = elim (Bool-cases (any (text_eq (safe_peer_token name)) entry.publishers)) [
    | inl old ↦ rw (link.topic_opens, link.payload_decodes, old) refl
    | inr new ↦ rw (link.topic_opens, link.payload_decodes, new) refl
  ]

  the_target : Addressed
  the_target = record { key = entry_key mesh sender.channel_id; entry = entry; payload = payload }

  finds_target : framed_channel mesh m (some (sender.channel_id, payload)) ≡ some the_target
  unfolding the_target
  finds_target = rw (link.channel_found, link.channel_imports) refl

  named : mesh_sender_name source (NatMap.find source m.mesh_peer_by_address) ≡ name
  named = ap (mesh_sender_name source) link.sender_known

  delivers :
      (deliver_mesh runtime source entry.config.mesh_app_key_index
        (mesh_access sender payload)
        m
        (some the_target)).sample
      ≡ some the_publication
  unfolding the_target
  delivers =
      if_cases (λ (h : Handled). h.sample ≡ some the_publication)
        (not (entry.config.mesh_app_key_index == entry.config.mesh_app_key_index))
        (λ wrong. absurd (ground (arith, wrong)))
        (λ right.
          if_cases (λ (h : Handled). h.sample ≡ some the_publication)
            (mesh_offset (mesh_access sender payload) == 3
              && not (is_own_opcode entry.config (mesh_access sender payload)))
            (λ bad. absurd (not_both _ _ own_opcode bad))
            (λ good.
              if_cases (λ (h : Handled). h.sample ≡ some the_publication)
                (not (is_some (NatMap.find source m.mesh_peer_by_address))
                  && not (is_empty m.peer_whitelist))
                (λ unknown. absurd (not_unknown _ _ name link.sender_known unknown))
                (λ listed.
                  ap (λ n. (publish runtime m.peers_prefix n payload false entry).sample) named
                  ∙ publishes)))

  -- If a receiver imports the sender's channel under its vendor opcode, company and application key,
  -- knows the sender's address and can open the topic and decode the payload, the sender's access
  -- message makes it publish the decoded message under the sender's name.
  pub handle_mesh-mesh_access :
      (handle_mesh runtime source entry.config.mesh_app_key_index
        (mesh_access sender payload)
        m).sample
      ≡ some record {
        topic = import_topic m.peers_prefix (safe_peer_token name) entry.config;
        message = message;
      }
  unfolding handle_mesh the_publication
  handle_mesh-mesh_access =
      ap
        (λ o.
          (deliver_mesh runtime source entry.config.mesh_app_key_index (mesh_access sender payload)
            m (framed_channel mesh m o)).sample)
        (ap (unframe_payload (mesh_access sender payload)) keeps_opcode ∙ unframes)
      ∙ ap
          (λ o.
            (deliver_mesh runtime source entry.config.mesh_app_key_index
              (mesh_access sender payload) m o).sample)
          finds_target
      ∙ delivers
