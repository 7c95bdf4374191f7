-- ===== src/Bridge/Transport/Configure/Fresh.antt =====
-- The generations of bridges across a new configuration.
use mrs_uav_bluetooth.Bridge.Transport.Receive.{find_entry, BridgeSlot, Manager}
use mrs_uav_bluetooth.Prelude.{
  ltb, ◌==◌, if◌then◌else◌, refl, Bool-cases, is_some, if_cases, length, Text, text_eq, ℕ, ◌+◌, ◌^◌,
  ◌≤◌, ◌<◌, ◌≡◌, inl, inr, false, Option, none, some, List, [], ◌∷◌, arith,
}
use mrs_uav_bluetooth.Bridge.Transport.Configure.{
  advertisement_exports, reset_bridges, is_gatt, add_bridge, add_bridges, configure, ConfigureError,
}
use mathlib.Core.Path.{subst}
use mrs_uav_bluetooth.Bridge.Transport.{
  entry_key, handle_local_message, begin_flush, SharedTopic, BridgeEntry, BridgeRuntime,
}

abbrev IsNewer : ℕ → List BridgeSlot → Type 0
IsNewer g [] = Unit {0}
IsNewer g (slot ∷ slots) = (g < slot.entry.generation) × IsNewer g slots

find_entry-IsNewer :
    (g : ℕ) (key : Text) (slots : List BridgeSlot) (e : BridgeEntry)
    → IsNewer g slots
    → find_entry key slots ≡ some e
    → g < e.generation
find_entry-IsNewer g key [] e newer found = absurd (cc found)
find_entry-IsNewer g key (slot ∷ slots) e (first, newer) found =
    elim (Bool-cases (text_eq key slot.key)) [
      | inl here ↦
          let same : some slot.entry ≡ some e =
            subst (λ b. (if b then some slot.entry else find_entry key slots) ≡ some e) here
              found in
          grind (arith, same, first)
      | inr there ↦
          find_entry-IsNewer g key slots e newer (
            subst (λ b. (if b then some slot.entry else find_entry key slots) ≡ some e) there found)
    ]

add_bridges-IsNewer :
    (g : ℕ) (topics : List SharedTopic) (m : Manager)
    → g ≤ m.next_generation
    → m.next_generation + length topics < 2 ^ 64
    → IsNewer g m.entries
    → IsNewer g (add_bridges topics m).1.entries
unfolding add_bridges
add_bridges-IsNewer g [] m old room newer = newer
add_bridges-IsNewer g (t ∷ topics) m old room newer =
    if_cases (λ (r : Option ConfigureError × Manager). IsNewer g r.1.entries) (is_gatt t.transport)
      (λ gatt. add_bridges-IsNewer g topics m old (omega (arith, room)) newer)
      (λ other.
        if_cases (λ (r : Option ConfigureError × Manager). IsNewer g r.1.entries)
          (is_some (find_entry (entry_key t.transport t.channel_id) m.entries)) (λ twice. newer)
          (λ once.
            add_bridges-IsNewer g topics (add_bridge t m) (omega (arith, room))
              (omega (arith, room)) ((omega (arith, room, old)), newer)))

configure-IsNewer :
    (topics : List SharedTopic) (prefix : Text) (whitelist : List Text) (m : Manager) (g : ℕ)
    → g ≤ m.next_generation
    → m.next_generation + length topics < 2 ^ 64
    → IsNewer g (configure topics prefix whitelist m).1.entries
unfolding configure
configure-IsNewer topics prefix whitelist m g old room =
    let reset : IsNewer g (reset_bridges prefix whitelist m).entries = unfold reset_bridges in tt in
    if_cases (λ (r : Option ConfigureError × Manager). IsNewer g r.1.entries)
      (ltb 1 (advertisement_exports topics)) (λ two. reset)
      (λ one.
        add_bridges-IsNewer g topics (reset_bridges prefix whitelist m)
          (unfold reset_bridges in old) (unfold reset_bridges in room) reset)

-- After `configure`, whether it succeeds or throws, a subscription or a timer that was created for a
-- bridge of an earlier generation neither buffers a sample nor takes a value out, provided that the
-- 64-bit counter of generations does not wrap.
pub configure-silences :
    (topics : List SharedTopic) (prefix : Text) (whitelist : List Text) (m : Manager) (g : ℕ)
    (key : Text) (e : BridgeEntry) (runtime : BridgeRuntime) (message : List ℕ) (now : ℕ)
    → g ≤ m.next_generation
    → m.next_generation + length topics < 2 ^ 64
    → find_entry key (configure topics prefix whitelist m).1.entries ≡ some e
    → (handle_local_message runtime g message e ≡ (false, e)) × (begin_flush g now e ≡ (none, e))
unfolding handle_local_message begin_flush
configure-silences topics prefix whitelist m g key e runtime message now old room found =
    let newer =
      find_entry-IsNewer g key (configure topics prefix whitelist m).1.entries e
        (configure-IsNewer topics prefix whitelist m g old room) found in
    let other : (e.generation == g) ≡ false = ground (arith, newer) in
    (rw other refl, rw other refl)
