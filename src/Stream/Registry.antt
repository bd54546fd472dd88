-- ===== src/Stream/Registry.antt =====
-- examples/gateway/internal/sse/sse.go: who watches an order, and what a broadcast does to a slot.
use go_boilerplate.Prelude.{
  ℕ, ◌≡◌, refl, ap, ◌∙◌, true, false, not, ◌||◌, List, [], ◌∷◌, String, str_eq, eq_iff, ◌==◌, arith,
  Bool-cases, inl, inr, if◌then◌else◌,
}
use go_boilerplate.Dict.{Dict, lookup, insert, erase, lookup-insert}
use go_boilerplate.Stream.{
  Slot, mark_refresh, Streamer, mem_slot, remove_slot, watchers, register, put_back, unregister,
  on_slots, refresh_sets,
}

pub lookup-erase_ne {ℓ} :
    {V : Type ℓ} (k j : String) (d : Dict V)
    → str_eq k j ≡ false
    → lookup j (erase k d) ≡ lookup j d
lookup-erase_ne k j [] apart = refl
lookup-erase_ne k j ((i, w) ∷ d) apart =
    ground (arith, eq_iff i k, eq_iff i j, eq_iff k j, lookup-erase_ne k j d apart)

watchers-insert :
    (k j : String) (ns : List ℕ) (d : Dict (List ℕ))
    → watchers j (insert k ns d) ≡ (if str_eq k j then ns else watchers j d)
watchers-insert k j ns d = ground (arith, lookup-insert k j ns d)

pub mem-remove_slot :
    (m n : ℕ) (ns : List ℕ)
    → (n == m) ≡ false
    → mem_slot n ns ≡ true
    → mem_slot n (remove_slot m ns) ≡ true
mem-remove_slot m n [] apart h = h
mem-remove_slot m n (i ∷ ns) apart h = ground (arith, mem-remove_slot m n ns apart)

pub mem-register_self :
    (id : String) (n : ℕ) (s : Streamer)
    → mem_slot n (watchers id (register id n s).registry) ≡ true
unfolding register
mem-register_self id n s =
    ground (arith, watchers-insert id id (n ∷ watchers id s.registry) s.registry, eq_iff id id)

pub mem-register :
    (id j : String) (m n : ℕ) (s : Streamer)
    → mem_slot n (watchers j s.registry) ≡ true
    → mem_slot n (watchers j (register id m s).registry) ≡ true
unfolding register
mem-register id j m n s h =
    ground (arith, watchers-insert id j (m ∷ watchers id s.registry) s.registry, eq_iff id j)

mem-put_back :
    (id j : String) (n : ℕ) (ns : List ℕ) (d : Dict (List ℕ))
    → (str_eq id j ≡ true → mem_slot n ns ≡ true)
    → mem_slot n (watchers j d) ≡ true
    → mem_slot n (watchers j (put_back id ns d)) ≡ true
mem-put_back id j n [] d inside h = elim (Bool-cases (str_eq id j)) [
  | inl same ↦ absurd (ground (arith, inside same))
  | inr apart ↦ ground (arith, lookup-erase_ne id j d apart)
]
mem-put_back id j n (i ∷ ns) d inside h = elim (Bool-cases (str_eq id j)) [
  | inl same ↦ ground (arith, watchers-insert id j (i ∷ ns) d, inside same)
  | inr apart ↦ ground (arith, watchers-insert id j (i ∷ ns) d)
]

pub mem-unregister :
    (id j : String) (m n : ℕ) (s : Streamer)
    → (n == m) ≡ false
    → mem_slot n (watchers j s.registry) ≡ true
    → mem_slot n (watchers j (unregister id m s).registry) ≡ true
unfolding unregister
mem-unregister id j m n s apart h =
    mem-put_back id j n (remove_slot m (watchers id s.registry)) s.registry
      (λ same.
        mem-remove_slot m n (watchers id s.registry) apart
          (ap (λ t. mem_slot n (watchers t s.registry)) ((eq_iff id j).0 same) ∙ h))
      h

-- A slot that a refresh reaches, and one that it does not.
pub on_slots-refresh :
    (n : ℕ) (ns : List ℕ) (slots : ℕ → Slot)
    → (on_slots mark_refresh ns slots n).refresh ≡ (mem_slot n ns || (slots n).refresh)
unfolding mark_refresh
on_slots-refresh n ns slots = ground arith

refresh_sets-refresh :
    (d : Dict (List ℕ)) (n : ℕ) (slots : ℕ → Slot)
    → (slots n).refresh ≡ true
    → (refresh_sets d slots n).refresh ≡ true
refresh_sets-refresh [] n slots h = h
refresh_sets-refresh ((id, ns) ∷ d) n slots h =
    refresh_sets-refresh d n (on_slots mark_refresh ns slots)
      (on_slots-refresh n ns slots ∙ ground arith)

pub refresh_sets-mem :
    (d : Dict (List ℕ)) (j : String) (n : ℕ) (slots : ℕ → Slot)
    → mem_slot n (watchers j d) ≡ true
    → (refresh_sets d slots n).refresh ≡ true
refresh_sets-mem [] j n slots h = absurd (ground arith)
refresh_sets-mem ((id, ns) ∷ d) j n slots h = elim (Bool-cases (str_eq id j)) [
  | inl same ↦
      refresh_sets-refresh d n (on_slots mark_refresh ns slots)
        (on_slots-refresh n ns slots ∙ ground arith)
  | inr apart ↦ refresh_sets-mem d j n (on_slots mark_refresh ns slots) (ground arith)
]

-- A slot holds nothing, or its stream is to be woken.
abbrev pub IsAwake : Slot → Type 0
IsAwake sl = (sl.refresh || not (str_eq sl.pending_status "")) ≡ true → sl.notify ≡ true

pub refresh_sets-IsAwake :
    (d : Dict (List ℕ)) (n : ℕ) (slots : ℕ → Slot)
    → IsAwake (slots n)
    → IsAwake (refresh_sets d slots n)
unfolding mark_refresh
refresh_sets-IsAwake [] n slots h = h
refresh_sets-IsAwake ((id, ns) ∷ d) n slots h =
    refresh_sets-IsAwake d n (on_slots mark_refresh ns slots) (elim (Bool-cases (mem_slot n ns)) [
      | inl inside ↦ ground (arith, h)
      | inr outside ↦ rw outside h
    ])
