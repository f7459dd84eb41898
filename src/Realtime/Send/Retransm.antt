-- ===== src/Realtime/Send/Retransm.antt =====
-- `Send_RT_Retransm` of daemon/realtime_udp.c as a whole.
use spines.Prelude.{
  false, ℕ, ◌+◌, ◌-◌, ◌*◌, ◌%◌, ◌≤◌, ◌<◌, ◌≡◌, refl, ap, ◌∙◌, inl, inr, true, ◌&&◌, none, List, [],
  ◌∷◌, ltb, leb, length, arith, Bool-cases,
}
use spines.Realtime.{RtData, HistoryCell, rt_retransm_tok, is_old, max_history}
use spines.Realtime.Send.{clean_rt_history, Env, process_rt_nack_packet, resend, send_rt_retransm}
use spines.Realtime.Send.Laws.{
  IsHistory, Cleaned, clean_rounds-Cleaned, clean_rounds-Stops, Resent, stopped, skipped, resent,
  in_history, resend-Resent, resend-tokens, resend_all,
}

-- What is resent from a cleaned history was in the history before.
Resent-back :
    (d e : RtData) (requested : List ℕ) (sent : List (ℕ × HistoryCell))
    → Cleaned d e
    → Resent e.tail e.head e.window requested sent
    → Resent d.tail d.head d.window requested sent
Resent-back d e requested sent c stopped = stopped
Resent-back d e requested sent c (skipped r) = skipped (Resent-back d e _ _ c r)
Resent-back d e requested sent c (resent {s = s} lo hi r) =
    let le : d.tail ≤ s = omega (arith, c.tail) in
    let lt : s < d.head = omega (arith, c.head) in
    rw (c.same s lo lt) (resent le lt (Resent-back d e _ _ c r))

resend-IsHistory :
    (env : Env) (requested : List ℕ) (d : RtData)
    → IsHistory d
    → IsHistory (resend env requested d).1
unfolding resend
resend-IsHistory env [] d h = h
resend-IsHistory env (s ∷ rest) d h =
    let d' : RtData = record d { bucket = d.bucket - rt_retransm_tok } in
    let h' : IsHistory d' = record {
      ordered = h.ordered;
      fits = h.fits;
      held = h.held;
      tokens = omega (arith, h.tokens);
    } in
    elim (Bool-cases (ltb s d.head && leb d.tail s)) [
      | inr t ↦ rw t (resend-IsHistory env rest d h)
      | inl t ↦ elim (Bool-cases (ltb d.bucket rt_retransm_tok)) [
        | inl u ↦ rw (t, u) h
        | inr u ↦ elim (Bool-cases env.network_flag) [
          | inr v ↦ rw (t, u, v) (resend-IsHistory env rest d' h')
          | inl v ↦ elim (Bool-cases (env.link_send s)) [
            | inl w ↦ rw (t, u, v, w) (resend-IsHistory env rest d' h')
            | inr w ↦ rw (t, u, v, w) h'
          ]
        ]
      ]
    ]

in_history-same :
    (tail head : ℕ) (w w' : ℕ → HistoryCell) (requested : List ℕ)
    → ((s : ℕ) → tail ≤ s → s < head → w (s % max_history) ≡ w' (s % max_history))
    → in_history tail head w requested ≡ in_history tail head w' requested
unfolding in_history
in_history-same tail head w w' [] same = refl
in_history-same tail head w w' (s ∷ rest) same = elim (Bool-cases (ltb s head && leb tail s)) [
  | inr t ↦ rw t (in_history-same tail head w w' rest same)
  | inl t ↦
      rw (t, same s (ground arith) (ground arith))
        (ap (λ l. (s, w' (s % max_history)) ∷ l) (in_history-same tail head w w' rest same))
]

-- From a history, after a request of two elements arrives: the retransmission sends some of the
-- requested packets in the order of the request, each as it is in the history and for two tokens of
-- the bucket. Where the network is on, the sends succeed and there are tokens enough, it sends
-- all of those from the first packet on that is not too old. The request is then done, and the
-- history is one again.
pub retransm-Resent :
    (env : Env) (now : ℕ) (requested : List ℕ) (d : RtData)
    → IsHistory d
    → let (sent, d') = send_rt_retransm env now (process_rt_nack_packet 2 requested d) in
      Resent d.tail d.head d.window requested sent
      × (length sent * 2 + d'.bucket ≤ d.bucket)
      × ((env.network_flag ≡ true)
          → ((s : ℕ) → env.link_send s ≡ true)
          → length requested * 2 ≤ d.bucket
          → (first : ℕ) × (d.tail ≤ first)
            × ((i : ℕ)
                → d.tail ≤ i
                → i < first
                → is_old now (d.window (i % max_history)).timestamp ≡ true)
            × (first < d.head → is_old now (d.window (first % max_history)).timestamp ≡ false)
            × (sent ≡ in_history first d.head d.window requested))
      × (d'.retransm ≡ none)
      × IsHistory d'
unfolding send_rt_retransm process_rt_nack_packet clean_rt_history
retransm-Resent env now requested d h =
    let d₁ = process_rt_nack_packet 2 requested d in
    let h₁ : IsHistory d₁ = record {
      ordered = h.ordered;
      fits = h.fits;
      held = h.held;
      tokens = h.tokens;
    } in
    let e = clean_rt_history now d₁ in
    let c = clean_rounds-Cleaned now (d.head - d.tail) d₁ h₁ in
    let stops = clean_rounds-Stops now (d.head - d.tail) d₁ h₁ (omega (arith, h.ordered)) in
    let h₂ = resend-IsHistory env requested e c.history in
    (
      Resent-back d₁ e _ _ c (resend-Resent env requested e),
      omega (arith, resend-tokens env requested e, c.bucket),
      λ on ok enough. (
        e.tail,
        c.tail,
        stops.old,
        stops.young,
        resend_all env requested e on ok (omega (arith, c.bucket))
            ∙ ap (λ head. in_history e.tail head e.window requested) c.head
            ∙ in_history-same e.tail d.head e.window d.window requested (λ s lo hi. c.same s lo hi),
      ),
      refl,
      record { ordered = h₂.ordered; fits = h₂.fits; held = h₂.held; tokens = h₂.tokens },
    )
