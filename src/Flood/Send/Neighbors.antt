-- ===== src/Flood/Send/Neighbors.antt =====
-- What a call of `Send_State_Updates` (daemon/state_flood.c) sends to each neighbor.
use spines.Prelude.{
  ℕ, ◌<◌, ◌≤◌, ◌+◌, ◌≡◌, ◌≢◌, refl, Bool, true, false, List, [], ◌∷◌, ◌++◌, ◌==◌, if◌then◌else◌,
  arith, Bool-cases, inl, inr, sym, ap, ◌∙◌, map,
}
use mathlib.Core.Bool.{true≢false}
use mathlib.Core.Path.{subst}
use mathlib.Core.List.{append_assoc}
use spines.Flood.{StateData, Cell, Changed, Env, ProtDef}
use spines.Flood.Send.{StateMessage, room, is_needed, mark, net_send_state_updates, send_to_each}
use spines.Flood.Send.Packed.{sent_in}
use spines.Flood.Send.Conserve.{waiting, cell_for}
use spines.Flood.Send.Exactly.{net_send_state_updates-exact}

-- The cells of a source that a neighbor was sent, in their order.
abbrev pub cells_to : ℕ → ℕ → List (ℕ × List StateMessage) → List Cell
cells_to n a [] = []
cells_to n a ((m, messages) ∷ sent) =
    (if m == n then sent_in a messages else []) ++ cells_to n a sent

pub cells_to-append :
    (n a : ℕ) (l l' : List (ℕ × List StateMessage))
    → cells_to n a (l ++ l') ≡ cells_to n a l ++ cells_to n a l'
cells_to-append n a [] l' = refl
cells_to-append n a ((m, messages) ∷ l) l' =
    ap (λ t. (if m == n then sent_in a messages else []) ++ t) (cells_to-append n a l l')
    ∙ sym (
        append_assoc (if m == n then sent_in a messages else []) (cells_to n a l) (cells_to n a l'))

abbrev pub is_member : ℕ → List ℕ → Bool
is_member n [] = false
is_member n (m ∷ ms) = if m == n then true else is_member n ms

append-empty : {A : Type 0} (a b : List A) → a ++ b ≡ [] → b ≡ []
append-empty [] b e = e
append-empty (x ∷ a) b e = cc

module _ (env : Env) (prot : ProtDef) (state_of : ℕ → ℕ → StateData) where
  waiting-map :
      (n m a : ℕ) (cs : List Changed)
      → m ≢ n
      → waiting env prot state_of m a (map (mark env prot state_of n) cs)
        ≡ waiting env prot state_of m a cs
  waiting-map n m a [] ne = refl
  waiting-map n m a (c ∷ cs) ne =
      let e : (m == n) ≡ false = ground arith in
      rw e (
        ap
          (λ l.
            (if is_needed env prot state_of m a c then cell_for env prot state_of m c ∷ [] else [])
            ++ l)
          (waiting-map n m a cs ne))

  module _ (has_header : 0 < prot.header_size)
      (has_room : prot.header_size + prot.cell_size ≤ room) where
    net-Conserves :
        (n m a : ℕ) (cs : List Changed)
        → let (all, cs', messages) = net_send_state_updates env prot state_of m cs in
          (if m == n then sent_in a messages else []) ++ waiting env prot state_of n a cs'
          ≡ waiting env prot state_of n a cs
    net-Conserves n m a cs =
        let (kept, same, ends) =
          net_send_state_updates-exact env prot state_of m cs has_header has_room in
        elim (Bool-cases (m == n)) [
          | inl this ↦
              let e : m ≡ n = ground arith in
              let cs₁ = (net_send_state_updates env prot state_of m cs).1 in
              let messages = (net_send_state_updates env prot state_of m cs).2 in
              rw this (
                subst
                  (λ k.
                    sent_in a messages ++ waiting env prot state_of k a cs₁
                    ≡ waiting env prot state_of k a cs)
                  e (kept a))
          | inr that ↦
              let ne : n ≢ m = ground arith in
              rw that (
                sym (waiting-map m n a (net_send_state_updates env prot state_of m cs).1 ne)
                ∙ ap (waiting env prot state_of n a) same
                ∙ waiting-map m n a cs ne)
        ]

    -- What a neighbor is sent and what it still needs are what it needed before.
    pub send_to_each-Conserves :
        (n a : ℕ) (ns : List ℕ) (cs : List Changed)
        → let (all, cs', sent) = send_to_each env prot state_of ns cs in
          cells_to n a sent ++ waiting env prot state_of n a cs' ≡ waiting env prot state_of n a cs
    unfolding send_to_each
    send_to_each-Conserves n a [] cs = refl
    send_to_each-Conserves n a (m ∷ ns) cs =
        let (all, cs₁, messages) = net_send_state_updates env prot state_of m cs in
        let (all', cs₂, sent) = send_to_each env prot state_of ns cs₁ in
        let first = if m == n then sent_in a messages else [] in
        append_assoc first (cells_to n a sent) (waiting env prot state_of n a cs₂)
        ∙ ap (λ l. first ++ l) (send_to_each-Conserves n a ns cs₁)
        ∙ net-Conserves n m a cs

    -- If all is sent, no neighbor of the list needs anything more.
    pub send_to_each-all :
        (n a : ℕ) (ns : List ℕ) (cs : List Changed)
        → (send_to_each env prot state_of ns cs).0 ≡ true
        → is_member n ns ≡ true
        → waiting env prot state_of n a (send_to_each env prot state_of ns cs).1 ≡ []
    unfolding send_to_each
    send_to_each-all n a [] cs all member = absurd (true≢false (sym member))
    send_to_each-all n a (m ∷ ns) cs all member =
        let cs₁ = (net_send_state_updates env prot state_of m cs).1 in
        let sent = (send_to_each env prot state_of ns cs₁).2 in
        elim (Bool-cases (net_send_state_updates env prot state_of m cs).0) [
          | inr stopped ↦ absurd (true≢false (sym (rw stopped at all)))
          | inl here ↦ elim (Bool-cases (m == n)) [
            | inr that ↦ send_to_each-all n a ns cs₁ (rw here at all) (rw that at member)
            | inl this ↦
                let e : m ≡ n = ground arith in
                let (kept, same, ends) =
                  net_send_state_updates-exact env prot state_of m cs has_header has_room in
                let empty : waiting env prot state_of n a cs₁ ≡ [] =
                  ap (λ k. waiting env prot state_of k a cs₁) (sym e) ∙ ends here a in
                append-empty (cells_to n a sent) _ (send_to_each-Conserves n a ns cs₁ ∙ empty)
          ]
        ]
