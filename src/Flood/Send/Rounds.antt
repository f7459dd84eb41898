-- ===== src/Flood/Send/Rounds.antt =====
-- `Send_State_Updates` called until it is not queued again (daemon/state_flood.c).
use spines.Prelude.{
  ℕ, zero, suc, ◌+◌, ◌*◌, ◌≤◌, ◌<◌, ◌≡◌, ◌≢◌, refl, Bool, true, false, Option, none, some, List, [],
  ◌∷◌, ◌++◌, ◌==◌, if◌then◌else◌, arith, Bool-cases, ◌⊎◌, inl, inr, sym, ap, ◌∙◌, map, length,
}
use mathlib.Core.Bool.{true≢false}
use spines.Flood.{StateData, Changed, Env, ProtDef}
use spines.Flood.Send.{
  StateMessage, room, mark, net_send_state_updates, send_to_each, send_state_updates,
}
use spines.Flood.Send.Neighbors.{
  cells_to, cells_to-append, is_member, send_to_each-Conserves, send_to_each-all,
}
use mathlib.Core.List.{append-nil}
use spines.Flood.Send.Conserve.{waiting}
use spines.Flood.Send.Exactly.{net_send_state_updates-exact}
use spines.Flood.Send.Fit.{count_sent, AllFit}
use spines.Flood.Send.Sized.{to_send, net_send_state_updates-Sends}

-- What all of some neighbors still need.
abbrev pub all_to_send : List ℕ → List Changed → ℕ
all_to_send [] cs = 0
all_to_send (n ∷ ns) cs = to_send n cs + all_to_send ns cs

abbrev one_more :
    List (ℕ × List StateMessage)
    → Option (ℕ × List Changed × List (ℕ × List StateMessage))
    → Option (ℕ × List Changed × List (ℕ × List StateMessage))
one_more sent none = none
one_more sent (some (k, left, more)) = some (k + 1, left, sent ++ more)

abbrev next :
    Option (ℕ × List Changed × List (ℕ × List StateMessage))
    → Bool
    → List Changed
    → List (ℕ × List StateMessage)
    → Option (ℕ × List Changed × List (ℕ × List StateMessage))
next later false cs sent = some (1, cs, sent)
next later true cs sent = one_more sent later

module _ (env : Env) (prot : ProtDef) (state_of : ℕ → ℕ → StateData) where
  -- What the calls until the changed states are emptied do, where nothing else happens between: their
  -- number, the changed states that they leave, and what they send; `none` where the given number is
  -- not enough.
  unfoldable pub calls :
      ℕ → List ℕ → List Changed → Option (ℕ × List Changed × List (ℕ × List StateMessage))
  calls zero connected cs = none
  calls (suc most) connected cs =
      let (again, cs', sent) = send_state_updates env prot state_of connected cs in
      next (calls most connected cs') again cs' sent

  send_state_updates-again :
      (connected : List ℕ) (cs : List Changed)
      → (send_to_each env prot state_of connected cs).0 ≡ false
      → send_state_updates env prot state_of connected cs ≡ (
        true,
        (send_to_each env prot state_of connected cs).1,
        (send_to_each env prot state_of connected cs).2,
      )
  unfolding send_state_updates
  send_state_updates-again connected cs some_left = rw some_left refl

  calls-again :
      (most : ℕ) (connected : List ℕ) (cs : List Changed)
      → (send_to_each env prot state_of connected cs).0 ≡ false
      → calls (suc most) connected cs
        ≡ one_more
            (send_to_each env prot state_of connected cs).2
            (calls most connected (send_to_each env prot state_of connected cs).1)
  unfolding calls send_state_updates
  calls-again most connected cs some_left =
      ap (λ (again, cs', sent). next (calls most connected cs') again cs' sent)
        (send_state_updates-again connected cs some_left)

  calls-ends :
      (most : ℕ) (connected : List ℕ) (cs : List Changed)
      → (send_to_each env prot state_of connected cs).0 ≡ true
      → calls (suc most) connected cs
        ≡ some (1, [], (send_to_each env prot state_of connected cs).2)
  unfolding calls send_state_updates
  calls-ends most connected cs all = rw (all, calls, send_state_updates) refl

  to_send-map :
      (n m : ℕ) (cs : List Changed)
      → m ≢ n
      → to_send m (map (mark env prot state_of n) cs) ≡ to_send m cs
  to_send-map n m [] ne = refl
  to_send-map n m (c ∷ cs) ne =
      let e : (m == n) ≡ false = ground arith in
      rw e (ap (λ k. (if c.mask m then 0 else 1) + k) (to_send-map n m cs ne))

  module _ (has_header : 0 < prot.header_size)
      (has_room : prot.header_size + prot.cell_size ≤ room) where
    AllFit-count : (ms : List StateMessage) → AllFit prot ms → length ms ≤ count_sent ms
    AllFit-count [] fit = omega arith
    AllFit-count (m ∷ ms) ((bytes, within, some_cell), fit) = omega (arith, AllFit-count ms fit)

    -- A call for one neighbor raises what no neighbor needs.
    to_send-net :
        (n m : ℕ) (cs : List Changed)
        → to_send m (net_send_state_updates env prot state_of n cs).1 ≤ to_send m cs
    to_send-net n m cs = elim (Bool-cases (m == n)) [
      | inl this ↦
          let e : m ≡ n = ground arith in
          let (fit, few, six, counted) =
            net_send_state_updates-Sends env prot state_of has_header has_room n cs in
          rw e (omega arith)
      | inr that ↦
          let ne : m ≢ n = ground arith in
          let (kept, same, all) =
            net_send_state_updates-exact env prot state_of n cs has_header has_room in
          let e : to_send m (net_send_state_updates env prot state_of n cs).1 ≡ to_send m cs =
            sym (to_send-map n m (net_send_state_updates env prot state_of n cs).1 ne)
            ∙ ap (to_send m) same
            ∙ to_send-map n m cs ne in
          omega arith
    ]

    all_to_send-net :
        (n : ℕ) (ns : List ℕ) (cs : List Changed)
        → all_to_send ns (net_send_state_updates env prot state_of n cs).1 ≤ all_to_send ns cs
    all_to_send-net n [] cs = omega arith
    all_to_send-net n (m ∷ ns) cs = omega (arith, all_to_send-net n ns cs, to_send-net n m cs)

    to_send-each :
        (m : ℕ) (ns : List ℕ) (cs : List Changed)
        → to_send m (send_to_each env prot state_of ns cs).1 ≤ to_send m cs
    unfolding send_to_each
    to_send-each m [] cs = omega arith
    to_send-each m (n ∷ ns) cs = omega (
      arith,
      to_send-net n m cs,
      to_send-each m ns (net_send_state_updates env prot state_of n cs).1,
    )

    all_to_send-each :
        (ms ns : List ℕ) (cs : List Changed)
        → all_to_send ms (send_to_each env prot state_of ns cs).1 ≤ all_to_send ms cs
    all_to_send-each [] ns cs = omega arith
    all_to_send-each (m ∷ ms) ns cs = omega (arith, all_to_send-each ms ns cs, to_send-each m ns cs)

    -- Where not all is sent, six messages are, and as much as their cells less is needed.
    send_to_each-progress :
        (ns : List ℕ) (cs : List Changed)
        → (send_to_each env prot state_of ns cs).0 ≡ false
        → all_to_send ns (send_to_each env prot state_of ns cs).1 + 6 ≤ all_to_send ns cs
    unfolding send_to_each
    send_to_each-progress [] cs some_left = absurd (true≢false some_left)
    send_to_each-progress (n ∷ ns) cs some_left =
        let cs₁ = (net_send_state_updates env prot state_of n cs).1 in
        let (fit, few, six, counted) =
          net_send_state_updates-Sends env prot state_of has_header has_room n cs in
        let some_cells = AllFit-count (net_send_state_updates env prot state_of n cs).2 fit in
        elim (Bool-cases (net_send_state_updates env prot state_of n cs).0) [
          | inl all ↦
              let rest = send_to_each-progress ns cs₁ (rw all at some_left) in
              omega (arith, all_to_send-net n ns cs, to_send-each n ns cs₁, to_send-net n n cs)
          | inr stopped ↦
              let all_six = six stopped in
              omega
                (arith, all_to_send-net n ns cs, all_to_send-each ns ns cs₁, to_send-each n ns cs₁)
        ]

    whole :
        (n a : ℕ) (ns : List ℕ) (cs : List Changed)
        → (send_to_each env prot state_of ns cs).0 ≡ true
        → is_member n ns ≡ true
        → cells_to n a (send_to_each env prot state_of ns cs).2 ≡ waiting env prot state_of n a cs
    whole n a ns cs all member =
        let sent = (send_to_each env prot state_of ns cs).2 in
        sym (append-nil (cells_to n a sent))
        ∙ ap (λ l. cells_to n a sent ++ l)
            (sym (send_to_each-all env prot state_of has_header has_room n a ns cs all member))
        ∙ send_to_each-Conserves env prot state_of has_header has_room n a ns cs

    -- Calls of `Send_State_Updates`, each after the one before, end with no changed state left, and
    -- their number is at most one more than a sixth of what the connected neighbors need before. Each
    -- connected neighbor is then sent just the cells that it needed, each once and in their order.
    pub calls-some :
        (most : ℕ) (connected : List ℕ) (cs : List Changed)
        → all_to_send connected cs < most
        → (k : ℕ) × (sent : List (ℕ × List StateMessage)) × (calls most connected cs
            ≡ some (k, [], sent))
          × (k * 6 ≤ all_to_send connected cs + 6)
          × ((n a : ℕ)
              → is_member n connected ≡ true
              → cells_to n a sent ≡ waiting env prot state_of n a cs)
    unfolding calls send_state_updates
    calls-some zero connected cs enough = absurd (omega arith)
    calls-some (suc most) connected cs enough =
        elim (Bool-cases (send_to_each env prot state_of connected cs).0) [
          | inl all ↦ (
            1,
            (send_to_each env prot state_of connected cs).2,
            calls-ends most connected cs all,
            omega arith,
            λ n a member. whole n a connected cs all member,
          )
          | inr some_left ↦
              let (each, cs₁, sent₁) = send_to_each env prot state_of connected cs in
              let fewer = send_to_each-progress connected cs some_left in
              let (k, sent, ran, bound, told) = calls-some most connected cs₁ (omega arith) in
              (
                k + 1,
                sent₁ ++ sent,
                calls-again most connected cs some_left ∙ ap (one_more sent₁) ran,
                omega arith,
                λ n a member.
                    cells_to-append n a sent₁ sent
                    ∙ ap (λ l. cells_to n a sent₁ ++ l) (told n a member)
                    ∙ send_to_each-Conserves env prot state_of has_header has_room n a connected cs,
              )
        ]

    -- A call of `Send_State_Updates` that is not queued again leaves no changed state, and has sent
    -- each connected neighbor just the cells that it needed, in their order. One that is queued again
    -- loses nothing: what a neighbor was sent, in its order, and what it still needs are what it needed
    -- before.
    pub send_state_updates-emptied :
        (connected : List ℕ) (cs : List Changed)
        → (let (again, left, sent) = send_state_updates env prot state_of connected cs in
            ((again ≡ false)
              × (left ≡ [])
              × ((n a : ℕ)
                  → is_member n connected ≡ true
                  → cells_to n a sent ≡ waiting env prot state_of n a cs))
            ⊎ ((again ≡ true)
                × ((n a : ℕ)
                    → cells_to n a sent ++ waiting env prot state_of n a left
                      ≡ waiting env prot state_of n a cs)))
    unfolding send_state_updates
    send_state_updates-emptied connected cs =
        elim (Bool-cases (send_to_each env prot state_of connected cs).0) [
          | inl all ↦ rw all (inl (refl, refl, λ n a member. whole n a connected cs all member))
          | inr some_left ↦ rw some_left (
              inr (
                refl,
                λ n a.
                    send_to_each-Conserves env prot state_of has_header has_room n a connected cs,
              ))
        ]
