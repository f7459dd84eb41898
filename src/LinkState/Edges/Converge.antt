-- ===== src/LinkState/Edges/Converge.antt =====
-- That flooding makes the tables of edges agree (daemon/link_state.c, daemon/state_flood.c).
use spines.Prelude.{
  ℕ, ◌≡◌, ◌≢◌, refl, false, Option, none, some, List, [], ◌∷◌, arith, Bool-cases, inl, inr, sym, ap,
  ◌∙◌, ◌↔◌,
}
use mathlib.Core.List.Memᴰ
use mathlib.Core.List.{Memᴰ}
use spines.Flood.{Tables, Env, is_before}
use spines.LinkState.Edges.Process.{Content, contents}
use spines.LinkState.Edges.Told.{
  Messages, FromNeighbors, receive_all, told, newest, receive_all-newest,
}

-- Contents with the same time are the same.
abbrev pub Stamped : List Content → Type 0
Stamped cs = (c c' : Content) → Memᴰ c cs → Memᴰ c' cs → c.sec ≡ c'.sec → c.usec ≡ c'.usec → c ≡ c'

abbrev NotBefore : Content → Content → Type 0
NotBefore r c = is_before r.sec r.usec c.sec c.usec ≡ false

abbrev IsNewest : Content → List Content → Type 0
IsNewest r cs = Memᴰ r cs × ((c : Content) → Memᴰ c cs → NotBefore r c)

NotBefore-trans : (a b c : Content) → NotBefore a b → NotBefore b c → NotBefore a c
NotBefore-trans a b c ab bc = ground arith

NotBefore-antisym :
    (a b : Content) → NotBefore a b → NotBefore b a → (a.sec ≡ b.sec) × (a.usec ≡ b.usec)
NotBefore-antisym a b ab ba = ground arith

newest-IsNewest :
    (k : Content) (cs : List Content)
    → (r : Content) × (newest (some k) cs ≡ some r) × IsNewest r (k ∷ cs)
newest-IsNewest k [] = (
  k,
  refl,
  (
    Memᴰ.head refl,
    λ c m. elim (Memᴰ.cases_cons m) [
      | inl e ↦ rw e (ground arith)
      | inr m' ↦ absurd (Memᴰ.not-nil m')
    ],
  ),
)
newest-IsNewest k (c ∷ cs) = elim (Bool-cases (is_before k.sec k.usec c.sec c.usec)) [
  | inl later ↦
      let (r, e, (m, top)) = newest-IsNewest c cs in
      (
        r,
        rw later e,
        (
          Memᴰ.tail m,
          λ d here. elim (Memᴰ.cases_cons here) [
            | inl same ↦ rw same (NotBefore-trans r c k (top c (Memᴰ.head refl)) (ground arith))
            | inr below ↦ top d below
          ],
        ),
      )
  | inr no_later ↦
      let (r, e, (m, top)) = newest-IsNewest k cs in
      (
        r,
        rw no_later e,
        (
          elim (Memᴰ.cases_cons m) [
            | inl first ↦ Memᴰ.head first
            | inr m' ↦ Memᴰ.tail (Memᴰ.tail m')
          ],
          λ d here. elim (Memᴰ.cases_cons here) [
            | inl same ↦ rw same (top k (Memᴰ.head refl))
            | inr below ↦ elim (Memᴰ.cases_cons below) [
              | inl same ↦ rw same (NotBefore-trans r k c (top k (Memᴰ.head refl)) no_later)
              | inr further ↦ top d (Memᴰ.tail further)
            ]
          ],
        ),
      )
]

abbrev SameMembers : List Content → List Content → Type 0
SameMembers cs ds = (c : Content) → Memᴰ c cs ↔ Memᴰ c ds

newest-SameMembers :
    (cs ds : List Content) → Stamped cs → SameMembers cs ds → newest none cs ≡ newest none ds
newest-SameMembers [] [] stamped same = refl
newest-SameMembers [] (d ∷ ds) stamped same = absurd (Memᴰ.not-nil ((same d).1 (Memᴰ.head refl)))
newest-SameMembers (c ∷ cs) [] stamped same = absurd (Memᴰ.not-nil ((same c).0 (Memᴰ.head refl)))
newest-SameMembers (c ∷ cs) (d ∷ ds) stamped same =
    let (r, e, (m, top)) = newest-IsNewest c cs in
    let (r', e', (m', top')) = newest-IsNewest d ds in
    let back = (same r').1 m' in
    let (sec, usec) = NotBefore-antisym r r' (top r' back) (top' r ((same r).0 m)) in
    e ∙ ap some (stamped r r' m back sec usec) ∙ sym e'

-- All that is known of an edge before a run or told of it in the run.
abbrev pub heard : Option Content → List Content → List Content
heard none cs = cs
heard (some k) cs = k ∷ cs

newest-heard : (o : Option Content) (cs : List Content) → newest o cs ≡ newest none (heard o cs)
newest-heard none cs = refl
newest-heard (some k) cs = refl

-- Two nodes that receive messages from their connected neighbors end with the same contents of an edge
-- that neither of them owns, if the same contents are known to them before or told to them, in whatever
-- order and however often, and if contents of that edge with the same time are the same.
pub receive_all-converge :
    (env env' : Env) (ms ms' : Messages) (t t' : Tables) (a d : ℕ)
    → FromNeighbors env ms
    → FromNeighbors env' ms'
    → a ≢ env.my_address
    → a ≢ env'.my_address
    → Stamped (heard (contents t a d) (told a d ms))
    → ((c : Content)
        → Memᴰ c (heard (contents t a d) (told a d ms))
          ↔ Memᴰ c (heard (contents t' a d) (told a d ms')))
    → (u : Tables) × (u' : Tables) × (receive_all env ms t ≡ some u)
      × (receive_all env' ms' t' ≡ some u')
      × (contents u a d ≡ contents u' a d)
receive_all-converge env env' ms ms' t t' a d near near' ne ne' stamped same =
    let (u, ran, tells) = receive_all-newest env ms t near in
    let (u', ran', tells') = receive_all-newest env' ms' t' near' in
    (
      u,
      u',
      ran,
      ran',
      tells a d ne
          ∙ newest-heard (contents t a d) (told a d ms)
          ∙ newest-SameMembers (heard (contents t a d) (told a d ms))
              (heard (contents t' a d) (told a d ms')) stamped same
          ∙ sym (newest-heard (contents t' a d) (told a d ms'))
          ∙ sym (tells' a d ne'),
    )
