-- ===== src/LinkState/Edges/Told.antt =====
-- What a run of messages leaves in the table of edges (daemon/link_state.c, daemon/state_flood.c).
use spines.Prelude.{
  ℕ, ◌≡◌, ◌≢◌, refl, Bool, true, false, ◌&&◌, ◌||◌, Option, some, List, [], ◌∷◌, ◌++◌, ◌==◌,
  if◌then◌else◌, arith, Bool-cases, ◌⊎◌, inl, inr, sym, ap, ◌∙◌,
}
use spines.Routing.Regime.{◌>>=◌}
use spines.Flood.{Cell, Tables, Env}
use spines.Flood.Receive.{
  is_news, process_cell, process_cells, process_packets, process_state_packet,
}
use spines.LinkState.Edges.{edge_prot_def}
use spines.LinkState.Edges.Own.{answered, answered-states, process_cell-own}
use spines.LinkState.Edges.Process.{
  Content, content_of_cell, contents, newer, content, process_cell-old, process_cell-newer,
}

-- The messages of a run, each with its sender and its state packets, in the order of their arrival.
abbrev pub Messages : Type 0
Messages = List (ℕ × List (ℕ × List Cell))

-- The tables after a run. `none`: the program exits.
abbrev pub receive_all : Env → Messages → Tables → Option Tables
receive_all env [] t = some t
receive_all env ((sender, packets) ∷ rest) t =
    process_state_packet env edge_prot_def sender packets t >>= λ done. receive_all env rest done.1

-- What is told of an edge, in order.
abbrev pub told_here : ℕ → ℕ → ℕ → Cell → List Content
told_here a d source c = if source == a && c.dest == d then content_of_cell c ∷ [] else []

abbrev pub told_of : ℕ → ℕ → ℕ → List Cell → List Content
told_of a d source [] = []
told_of a d source (c ∷ cells) = told_here a d source c ++ told_of a d source cells

abbrev pub told_by : ℕ → ℕ → List (ℕ × List Cell) → List Content
told_by a d [] = []
told_by a d ((source, cells) ∷ rest) = told_of a d source cells ++ told_by a d rest

abbrev pub told : ℕ → ℕ → Messages → List Content
told a d [] = []
told a d ((sender, packets) ∷ rest) = told_by a d packets ++ told a d rest

abbrev pub newest : Option Content → List Content → Option Content
newest o [] = o
newest o (c ∷ cs) = newest (newer o c) cs

newest-append :
    (o : Option Content) (cs ds : List Content) → newest o (cs ++ ds) ≡ newest (newest o cs) ds
newest-append o [] ds = refl
newest-append o (c ∷ cs) ds = newest-append (newer o c) cs ds

module _ (env : Env) where
  -- The contents of others' edges are the newest of what was there and what was told.
  abbrev Tells : Tables → (ℕ → ℕ → List Content) → Tables → Type 0
  Tells t what t' =
      (a d : ℕ) → a ≢ env.my_address → contents t' a d ≡ newest (contents t a d) (what a d)

  Tells-trans :
      (t t₁ t₂ : Tables) (what what' : ℕ → ℕ → List Content)
      → Tells t what t₁
      → Tells t₁ what' t₂
      → Tells t (λ a d. what a d ++ what' a d) t₂
  Tells-trans t t₁ t₂ what what' first second a d ne =
      second a d ne
      ∙ ap (λ o. newest o (what' a d)) (first a d ne)
      ∙ sym (newest-append (contents t a d) (what a d) (what' a d))

  Tells-here :
      (source : ℕ) (c : Cell) (t t' : Tables)
      → contents t' source c.dest ≡ newer (contents t source c.dest) (content_of_cell c)
      → ((a d : ℕ) → ((a ≢ source) ⊎ (d ≢ c.dest)) → t'.states a d ≡ t.states a d)
      → Tells t (λ a d. told_here a d source c) t'
  Tells-here source c t t' there elsewhere a d ne = elim (Bool-cases (source == a && c.dest == d)) [
    | inl this ↦
        let e : source ≡ a = ground arith in
        let e' : c.dest ≡ d = ground arith in rw (this, sym e, sym e') there
    | inr that ↦
        let apart : (a ≢ source) ⊎ (d ≢ c.dest) = elim (Bool-cases (source == a)) [
          | inl same ↦ inr (ground arith)
          | inr differs ↦ inl (ground arith)
        ] in
        rw that (ap content (elsewhere a d apart))
  ]

  process_cell-Tells :
      (sender source : ℕ) (c : Cell) (t : Tables)
      → env.is_connected_neighbor sender ≡ true
      → (b : Bool) × (t' : Tables) × (process_cell env edge_prot_def sender source c t
          ≡ some (b, t'))
        × Tells t (λ a d. told_here a d source c) t'
  process_cell-Tells sender source c t near = elim (Bool-cases (source == env.my_address)) [
    | inr other ↦
        let (b, t', ran, there, elsewhere) =
          process_cell-newer env sender source c t near (ground arith) in
        (b, t', ran, Tells-here source c t t' there elsewhere)
    | inl own ↦
        let e : env.my_address ≡ source = ground arith in
        elim (Bool-cases (is_news (t.states env.my_address c.dest) c)) [
          | inl news ↦ (
            false,
            answered env c t,
            rw⁻¹ e (process_cell-own env sender c t news),
            λ a d ne.
                let e' : (source == a) ≡ false = ground arith in
                rw e' (ap content (answered-states env c t a d ne)),
          )
          | inr old ↦
              let (b, t', ran, same) = process_cell-old env sender env.my_address c t old in
              (
                b,
                t',
                rw⁻¹ e ran,
                λ a d ne.
                    let e' : (source == a) ≡ false = ground arith in
                    rw e' (ap (λ st. content (st a d)) same),
              )
        ]
  ]

  process_cells-Tells :
      (sender source : ℕ) (cells : List Cell) (t : Tables)
      → env.is_connected_neighbor sender ≡ true
      → (b : Bool) × (t' : Tables) × (process_cells env edge_prot_def sender source cells t
          ≡ some (b, t'))
        × Tells t (λ a d. told_of a d source cells) t'
  unfolding process_cells
  process_cells-Tells sender source [] t near = (false, t, refl, λ a d ne. refl)
  process_cells-Tells sender source (c ∷ cells) t near =
      let (b, t₁, ran, tells) = process_cell-Tells sender source c t near in
      let (b', t₂, ran', tells') = process_cells-Tells sender source cells t₁ near in
      (
        b || b',
        t₂,
        rw (ran, ran') refl,
        Tells-trans t t₁ t₂ (λ a d. told_here a d source c) (λ a d. told_of a d source cells) tells
            tells',
      )

  process_packets-Tells :
      (sender : ℕ) (packets : List (ℕ × List Cell)) (t : Tables)
      → env.is_connected_neighbor sender ≡ true
      → (b : Bool) × (t' : Tables) × (process_packets env edge_prot_def sender packets t
          ≡ some (b, t'))
        × Tells t (λ a d. told_by a d packets) t'
  unfolding process_packets
  process_packets-Tells sender [] t near = (false, t, refl, λ a d ne. refl)
  process_packets-Tells sender ((source, cells) ∷ rest) t near =
      let (b, t₁, ran, tells) = process_cells-Tells sender source cells t near in
      let (b', t₂, ran', tells') = process_packets-Tells sender rest t₁ near in
      (
        b || b',
        t₂,
        rw (ran, ran') refl,
        Tells-trans t t₁ t₂ (λ a d. told_of a d source cells) (λ a d. told_by a d rest) tells
            tells',
      )

  abbrev pub FromNeighbors : Messages → Type 0
  FromNeighbors [] = Unit
  FromNeighbors ((sender, packets) ∷ rest) =
      (env.is_connected_neighbor sender ≡ true) × FromNeighbors rest

  -- A run of messages from connected neighbors ends, and leaves of each edge of another node the newest
  -- of what was known before and what the messages tell.
  pub receive_all-newest :
      (ms : Messages) (t : Tables)
      → FromNeighbors ms
      → (t' : Tables) × (receive_all env ms t ≡ some t')
        × ((a d : ℕ) → a ≢ env.my_address → contents t' a d ≡ newest (contents t a d) (told a d ms))
  unfolding process_state_packet
  receive_all-newest [] t near = (t, refl, λ a d ne. refl)
  receive_all-newest ((sender, packets) ∷ rest) t (near, more) =
      let (b, t₁, ran, tells) = process_packets-Tells sender packets t near in
      let (t₂, ran', tells') = receive_all-newest rest t₁ more in
      (
        t₂,
        rw (ran, ran') refl,
        Tells-trans t t₁ t₂ (λ a d. told_by a d packets) (λ a d. told a d rest) tells tells',
      )
