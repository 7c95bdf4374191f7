-- ===== src/Bridge/Transport/Replay.antt =====
-- The replay filter of advertisements and its bounded history.
use mrs_uav_bluetooth.Bridge.Transport.Publish.{
  safe_peer_token, recent_of, put_recent, is_seen, k_history, push_recent, remember, import_topic,
  publish_decoded, with_publisher, has_publisher, was_published, publish, Publication, Published,
}
use mrs_uav_bluetooth.Prelude.{
  not, length-append, any, ◌+◌, ap, ◌∙◌, false, Option, none, some, append_assoc, ltb, if_cases,
  suc, ◌<◌, sym, arith, if◌then◌else◌, Bool-cases, length, Text, text_eq, text_eq_refl, ℕ, ◌≤◌, ◌≡◌,
  refl, inl, inr, true, List, [], ◌∷◌, ◌++◌,
}
use mrs_uav_bluetooth.Bridge.Transport.{BridgeRuntime, RecentPayloads, BridgeEntry}
use mathlib.Core.Path.{subst}

abbrev pub remember_all : Text → List (List ℕ) → BridgeEntry → BridgeEntry
remember_all token [] entry = entry
remember_all token (p ∷ payloads) entry = remember_all token payloads (remember token p entry)

recent_of-put_recent :
    (token : Text) (payloads : List (List ℕ)) (seen_peers : List RecentPayloads)
    → recent_of token (put_recent token payloads seen_peers) ≡ payloads
recent_of-put_recent token payloads [] = rw (text_eq_refl token) refl
recent_of-put_recent token payloads (r ∷ rs) = elim (Bool-cases (text_eq token r.peer)) [
  | inl here ↦ rw (here, here) refl
  | inr there ↦ rw (there, there) (recent_of-put_recent token payloads rs)
]

-- The history after one more payload.
abbrev pub noted : List ℕ → List (List ℕ) → List (List ℕ)
noted payload recent = if is_seen payload recent then recent else push_recent payload recent

recent_of-remember :
    (token : Text) (payload : List ℕ) (entry : BridgeEntry)
    → recent_of token (remember token payload entry).recent_payloads
      ≡ noted payload (recent_of token entry.recent_payloads)
unfolding remember
recent_of-remember token payload entry =
    elim (Bool-cases (is_seen payload (recent_of token entry.recent_payloads))) [
      | inl seen ↦ rw seen refl
      | inr fresh ↦ rw fresh (
          recent_of-put_recent token (push_recent payload (recent_of token entry.recent_payloads))
            entry.recent_payloads)
    ]

-- The payload with at most so many payloads behind it.
abbrev Holds : List ℕ → ℕ → List (List ℕ) → Type 0
Holds payload after recent =
    (older : List (List ℕ)) × (newer : List (List ℕ)) × (recent ≡ older ++ payload ∷ newer)
    × (length newer ≤ after)

seen_behind :
    (payload : List ℕ) (older newer : List (List ℕ))
    → is_seen payload (older ++ payload ∷ newer) ≡ true
seen_behind payload [] newer = rw (text_eq_refl payload) refl
seen_behind payload (p ∷ older) newer = ground (arith, seen_behind payload older newer)

Holds-seen :
    (payload : List ℕ) (after : ℕ) (recent : List (List ℕ))
    → Holds payload after recent
    → is_seen payload recent ≡ true
Holds-seen payload after recent (older, newer, same, close) =
    subst (λ r. is_seen payload r ≡ true) (sym same) (seen_behind payload older newer)

-- A payload goes to the end of the history.
push_recent-Holds :
    (payload : List ℕ) (recent : List (List ℕ)) → Holds payload 0 (push_recent payload recent)
unfolding push_recent
push_recent-Holds payload [] = ([], [], refl, omega arith)
push_recent-Holds payload (p ∷ recent) =
    if_cases (Holds payload 0) (ltb k_history (length ((p ∷ recent) ++ payload ∷ [])))
      (λ long. (recent, [], refl, omega arith)) (λ short. (p ∷ recent, [], refl, omega arith))

-- One more payload moves those before it by one place at most, and only the oldest is dropped.
push_recent-keeps :
    (payload other : List ℕ) (after : ℕ) (recent : List (List ℕ))
    → suc after < k_history
    → Holds payload after recent
    → Holds payload (suc after) (push_recent other recent)
unfolding push_recent
push_recent-keeps payload other after recent room ([], newer, same, close) =
    subst (λ r. Holds payload (suc after) (push_recent other r)) (sym same)
      (unfold push_recent in
        if_cases (Holds payload (suc after))
          (ltb k_history (length ((payload ∷ newer) ++ other ∷ [])))
          (λ long. absurd (ground (arith, long, length-append newer (other ∷ []))))
          (λ short.
            ([], newer ++ other ∷ [], refl, omega (arith, length-append newer (other ∷ [])))))
push_recent-keeps payload other after recent room (p ∷ older, newer, same, close) =
    subst (λ r. Holds payload (suc after) (push_recent other r)) (sym same)
      (unfold push_recent in
        if_cases (Holds payload (suc after))
          (ltb k_history (length ((p ∷ older ++ payload ∷ newer) ++ other ∷ [])))
          (λ long. (
            older,
            newer ++ other ∷ [],
            append_assoc older (payload ∷ newer) (other ∷ []),
            omega (arith, length-append newer (other ∷ [])),
          ))
          (λ short. (
            p ∷ older,
            newer ++ other ∷ [],
            append_assoc (p ∷ older) (payload ∷ newer) (other ∷ []),
            omega (arith, length-append newer (other ∷ [])),
          )))

noted-keeps :
    (payload other : List ℕ) (after : ℕ) (recent : List (List ℕ))
    → suc after < k_history
    → Holds payload after recent
    → Holds payload (suc after) (noted other recent)
noted-keeps payload other after recent room holds =
    if_cases (Holds payload (suc after)) (is_seen other recent)
      (λ seen. let (older, newer, same, close) = holds in (older, newer, same, omega arith))
      (λ fresh. push_recent-keeps payload other after recent room holds)

remember_all-keeps :
    (token : Text) (payload : List ℕ) (others : List (List ℕ)) (after : ℕ) (entry : BridgeEntry)
    → after + length others < k_history
    → Holds payload after (recent_of token entry.recent_payloads)
    → is_seen payload (recent_of token (remember_all token others entry).recent_payloads) ≡ true
remember_all-keeps token payload [] after entry room holds =
    Holds-seen payload after (recent_of token entry.recent_payloads) holds
remember_all-keeps token payload (p ∷ others) after entry room holds =
    remember_all-keeps token payload others (suc after) (remember token p entry) (omega arith) (
      subst (Holds payload (suc after)) (sym (recent_of-remember token p entry))
        (noted-keeps payload p after (recent_of token entry.recent_payloads) (omega arith) holds))

with_publisher-recent :
    (token : Text) (entry : BridgeEntry)
    → (with_publisher token entry).recent_payloads ≡ entry.recent_payloads
with_publisher-recent token entry =
    if_cases (λ (e : BridgeEntry). e.recent_payloads ≡ entry.recent_payloads)
      (any (text_eq token) entry.publishers) (λ known. refl) (λ new. refl)

module _ (runtime : BridgeRuntime) (prefix peer : Text) (payload : List ℕ)
    (entry : BridgeEntry) where
  history : BridgeEntry → List (List ℕ)
  history e = recent_of (safe_peer_token peer) e.recent_payloads

  remember-Holds :
      (e : BridgeEntry)
      → is_seen payload (history e) ≡ false
      → Holds payload 0 (history (remember (safe_peer_token peer) payload e))
  unfolding history
  remember-Holds e fresh =
      subst (Holds payload 0) (sym (recent_of-remember (safe_peer_token peer) payload e))
        (rw fresh (push_recent-Holds payload (history e)))

  decoded-Holds :
      (decoded : Option (List ℕ)) (topic : Text) (s : Publication)
      → is_seen payload (history entry) ≡ false
      → (publish_decoded decoded topic
          (safe_peer_token peer)
          payload
          true
          (with_publisher (safe_peer_token peer) entry)).sample
        ≡ some s
      → Holds payload 0 (
          history
            (publish_decoded decoded topic
              (safe_peer_token peer)
              payload
              true
              (with_publisher (safe_peer_token peer) entry)).entry)
  unfolding history
  decoded-Holds none topic s fresh h = absurd (cc h)
  decoded-Holds (some message) topic s fresh h =
      remember-Holds (with_publisher (safe_peer_token peer) entry) (
        ap (λ r. is_seen payload (recent_of (safe_peer_token peer) r))
          (with_publisher-recent (safe_peer_token peer) entry)
        ∙ fresh)

  published-Holds :
      (s : Publication)
      → (publish runtime prefix peer payload true entry).sample ≡ some s
      → Holds payload 0 (history (publish runtime prefix peer payload true entry).entry)
  unfolding publish
  published-Holds s =
      if_cases (λ (r : Published). r.sample ≡ some s → Holds payload 0 (history r.entry))
        (was_published (safe_peer_token peer) payload true entry) (λ seen h. absurd (cc h))
        (λ fresh.
          if_cases (λ (r : Published). r.sample ≡ some s → Holds payload 0 (history r.entry))
            (not (
              has_publisher runtime (import_topic prefix (safe_peer_token peer) entry.config)
                (safe_peer_token peer) entry))
            (λ closed h. absurd (cc h))
            (λ open_topic h.
              decoded-Holds (runtime.decode_payload entry.config payload)
                (import_topic prefix (safe_peer_token peer) entry.config) s
                (unfold history in fresh) h))

  -- A payload of a peer's advertisement that was published is consumed without another publication
  -- and without a change, after fewer than 4096 other payloads of that peer have been remembered.
  pub publish-once :
      (s : Publication) (others : List (List ℕ))
      → (publish runtime prefix peer payload true entry).sample ≡ some s
      → length others < k_history
      → (let later =
            remember_all
              (safe_peer_token peer)
              others
              (publish runtime prefix peer payload true entry).entry in
          publish runtime prefix peer payload true later
          ≡ record { handled = true; sample = none; entry = later })
  unfolding publish
  publish-once s others h room =
      let known =
        remember_all-keeps (safe_peer_token peer) payload others 0
          (publish runtime prefix peer payload true entry).entry (omega (arith, room))
          (unfold history in published-Holds s h) in
      rw known refl
