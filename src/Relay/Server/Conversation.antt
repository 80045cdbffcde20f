-- ===== src/Relay/Server/Conversation.antt =====
-- What a reader is served, and which session a camera publishes.
use ziot_rtp_bridge.Base.{
  ℕ, suc, ◌+◌, ◌≡◌, ◌≢◌, ◌⊎◌, inl, inr, refl, sym, subst, true, false, Option, none, some, List, [],
  ◌∷◌, ◌++◌, arith, Bytes, bytes_eq, bytes_eq_refl, length, length-append,
}
use ziot_rtp_bridge.Relay.Server.{
  Verb, announce, record_verb, describe, setup, play, teardown, options, other_verb, Head, Table,
  publish_session, unpublish, Answer, Phase, talking, serving, closed, is_talking, Conn, reply,
  on_describe, on_play, on_verb, on_first, new_conn, reader_first, reader_next, reader_continue,
  reader_run,
}

abbrev talks : Option ℕ → List Answer → Option ℕ → Conn
talks session sent reads = record { session = session; sent = sent; phase = talking; reads = reads }

Phase-cases : (p : Phase) → (p ≡ talking) ⊎ (is_talking p ≡ false)
Phase-cases talking = inl refl
Phase-cases serving = inr refl
Phase-cases closed = inr refl

-- Each description among these answers is that of this session.
abbrev pub Told : Option ℕ → List Answer → Type 0
Told session [] = Unit
Told session (a ∷ sent) = ((d : ℕ) → a.described ≡ some d → session ≡ some d) × Told session sent

-- Where there was no session, nothing was described.
Told-none : (session : Option ℕ) (sent : List Answer) → Told none sent → Told session sent
Told-none session [] t = tt
Told-none session (a ∷ sent) (t, ts) = ((λ d e. cc (t d e)), Told-none session sent ts)

Told-append :
    (session : Option ℕ) (sent : List Answer) (a : Answer)
    → Told session sent
    → ((d : ℕ) → a.described ≡ some d → session ≡ some d)
    → Told session (sent ++ a ∷ [])
Told-append session [] a t h = (h, tt)
Told-append session (b ∷ sent) a (t, ts) h = (t, Told-append session sent a ts h)

module _ (P : ℕ → Type 0) where
  -- The session of a connection is one of P, and one that is served reads it.
  record IsTied (c : Conn) : Type 0 where
    known : (s : ℕ) → c.session ≡ some s → P s
    serves : c.phase ≡ serving → (s : ℕ) × (c.session ≡ some s) × (c.reads ≡ some s)
    told : Told c.session c.sent

  -- All that a connection can have is one of P.
  abbrev Knows : Option ℕ → Type 0
  Knows o = (s : ℕ) → o ≡ some s → P s

  on_describe-IsTied :
      (head : Head) (session : Option ℕ) (sent : List Answer) (reads : Option ℕ)
      → Knows session
      → Told session sent
      → IsTied (on_describe head (talks session sent reads))
  on_describe-IsTied head none sent reads k t = record {
    known = k;
    serves = λ e. cc;
    told = Told-append none sent _ t (λ d e. e);
  }
  on_describe-IsTied head (some s) sent reads k t = record {
    known = k;
    serves = λ e. cc;
    told = Told-append (some s) sent _ t (λ d e. e);
  }

  on_play-IsTied :
      (head : Head) (session : Option ℕ) (sent : List Answer) (reads : Option ℕ)
      → Knows session
      → Told session sent
      → IsTied (on_play head (talks session sent reads))
  on_play-IsTied head none sent reads k t = record {
    known = k;
    serves = λ e. cc;
    told = Told-append none sent _ t (λ d e. e);
  }
  on_play-IsTied head (some s) sent reads k t = record {
    known = k;
    serves = λ e. (s, refl, refl);
    told = Told-append (some s) sent _ t (λ d e. cc e);
  }

  on_verb-IsTied :
      (v : Verb) (published : Option ℕ) (head : Head) (session : Option ℕ) (sent : List Answer)
      (reads : Option ℕ)
      → Knows published
      → Knows session
      → Told session sent
      → IsTied (on_verb v published head (talks session sent reads))
  on_verb-IsTied describe published head none sent reads now k t =
      on_describe-IsTied head published sent reads now (Told-none published sent t)
  on_verb-IsTied describe published head (some s) sent reads now k t =
      on_describe-IsTied head (some s) sent reads k t
  on_verb-IsTied play published head session sent reads now k t =
      on_play-IsTied head session sent reads k t
  on_verb-IsTied setup published head session sent reads now k t = record {
    known = k;
    serves = λ e. cc;
    told = Told-append session sent _ t (λ d e. cc e);
  }
  on_verb-IsTied teardown published head session sent reads now k t = record {
    known = k;
    serves = λ e. cc;
    told = Told-append session sent _ t (λ d e. cc e);
  }
  on_verb-IsTied options published head session sent reads now k t = record {
    known = k;
    serves = λ e. cc;
    told = Told-append session sent _ t (λ d e. cc e);
  }
  on_verb-IsTied announce published head session sent reads now k t = record {
    known = k;
    serves = λ e. cc;
    told = Told-append session sent _ t (λ d e. cc e);
  }
  on_verb-IsTied record_verb published head session sent reads now k t = record {
    known = k;
    serves = λ e. cc;
    told = Told-append session sent _ t (λ d e. cc e);
  }
  on_verb-IsTied other_verb published head session sent reads now k t = record {
    known = k;
    serves = λ e. cc;
    told = Told-append session sent _ t (λ d e. cc e);
  }

  abbrev AllKnow : List (Option ℕ × Head) → Type 0
  AllKnow [] = Unit
  AllKnow ((published, head) ∷ rounds) = Knows published × AllKnow rounds

  reader_continue-IsTied :
      (rounds : List (Option ℕ × Head)) (c : Conn)
      → AllKnow rounds
      → IsTied c
      → IsTied (reader_continue rounds c)
  unfolding reader_continue reader_next
  reader_continue-IsTied [] c all t = t
  reader_continue-IsTied ((published, head) ∷ rounds) c all t = elim (Phase-cases c.phase) [
    | inr over ↦ rw over t
    | inl e ↦
        let c' = talks c.session c.sent c.reads in
        let same : c ≡ c' = cc e in
        let next =
          on_verb-IsTied head.verb published head c.session c.sent c.reads all.0 t.known t.told in
        let later = reader_continue-IsTied rounds (reader_next published head c') all.1 next in
        subst (λ x. IsTied (reader_continue ((published, head) ∷ rounds) x)) (sym same) later
  ]

-- A session that was published at one of these times.
abbrev pub WasPublished : ℕ → List (Option ℕ × Head) → Type 0
WasPublished s [] = true ≡ false
WasPublished s ((published, head) ∷ rounds) = (published ≡ some s) ⊎ WasPublished s rounds

WasPublished-AllKnow :
    (P : ℕ → Type 0) (rounds : List (Option ℕ × Head))
    → ((s : ℕ) → WasPublished s rounds → P s)
    → AllKnow P rounds
WasPublished-AllKnow P [] all = tt
WasPublished-AllKnow P ((published, head) ∷ rounds) all =
    ((λ s e. all s (inl e)), WasPublished-AllKnow P rounds (λ s w. all s (inr w)))

-- What a reader is served.
abbrev pub IsServed : List (Option ℕ × Head) → Conn → Type 0
IsServed rounds c = (s : ℕ) × (c.reads ≡ some s) × WasPublished s rounds × Told (some s) c.sent

on_first-IsTied :
    (P : ℕ → Type 0) (v : Verb) (head : Head) (published : Option ℕ)
    → Knows P published
    → IsTied P (on_first v head (new_conn published))
on_first-IsTied P describe head published k = on_describe-IsTied P head published [] none k tt
on_first-IsTied P announce head published k = record {
  known = k;
  serves = λ e. cc;
  told = ((λ d e. cc e), tt);
}
on_first-IsTied P record_verb head published k = record {
  known = k;
  serves = λ e. cc;
  told = ((λ d e. cc e), tt);
}
on_first-IsTied P setup head published k = record {
  known = k;
  serves = λ e. cc;
  told = ((λ d e. cc e), tt);
}
on_first-IsTied P play head published k = record {
  known = k;
  serves = λ e. cc;
  told = ((λ d e. cc e), tt);
}
on_first-IsTied P teardown head published k = record {
  known = k;
  serves = λ e. cc;
  told = ((λ d e. cc e), tt);
}
on_first-IsTied P options head published k = record {
  known = k;
  serves = λ e. cc;
  told = ((λ d e. cc e), tt);
}
on_first-IsTied P other_verb head published k = record {
  known = k;
  serves = λ e. cc;
  told = ((λ d e. cc e), tt);
}

-- A reader is served media of one session, which was published under its uid at its first request or at a
-- later one, and each description that it was sent before is the one of that session.
pub reader_run-IsServed :
    (published : Option ℕ) (head : Head) (rounds : List (Option ℕ × Head))
    → (reader_run published head rounds).phase ≡ serving
    → IsServed ((published, head) ∷ rounds) (reader_run published head rounds)
unfolding reader_run reader_first
reader_run-IsServed published head rounds served =
    let P = λ (s : ℕ). WasPublished s ((published, head) ∷ rounds) in
    let (now, all) = WasPublished-AllKnow P ((published, head) ∷ rounds) (λ s w. w) in
    let first = on_first-IsTied P head.verb head published now in
    let tied = reader_continue-IsTied P rounds (reader_first published head) all first in
    let c = reader_run published head rounds in
    let (s, session, reads) = tied.serves served in
    (s, reads, tied.known s session, subst (λ (o : Option ℕ). Told o c.sent) session tied.told)

-- Each request is answered once.
length-reply :
    (status : ℕ) (described : Option ℕ) (head : Head) (c : Conn)
    → length (reply status described head c).sent ≡ suc (length c.sent)
length-reply status described head c = omega (
  arith,
  length-append c.sent (record { status = status; cseq = head.cseq; described = described } ∷ []),
)

length-on_describe :
    (head : Head) (session : Option ℕ) (sent : List Answer) (reads : Option ℕ)
    → length (on_describe head (talks session sent reads)).sent ≡ suc (length sent)
length-on_describe head none sent reads = length-reply 404 none head (talks none sent reads)
length-on_describe head (some s) sent reads =
    length-reply 200 (some s) head (talks (some s) sent reads)

length-on_verb :
    (v : Verb) (published : Option ℕ) (head : Head) (session : Option ℕ) (sent : List Answer)
    (reads : Option ℕ)
    → length (on_verb v published head (talks session sent reads)).sent ≡ suc (length sent)
length-on_verb describe published head none sent reads =
    length-on_describe head published sent reads
length-on_verb describe published head (some s) sent reads =
    length-on_describe head (some s) sent reads
length-on_verb play published head none sent reads =
    length-reply 454 none head (talks none sent reads)
length-on_verb play published head (some s) sent reads =
    length-reply 200 none head (talks (some s) sent reads)
length-on_verb setup published head session sent reads =
    length-reply 200 none head (talks session sent reads)
length-on_verb teardown published head session sent reads =
    length-reply 200 none head (talks session sent reads)
length-on_verb options published head session sent reads =
    length-reply 200 none head (talks session sent reads)
length-on_verb announce published head session sent reads =
    length-reply 501 none head (talks session sent reads)
length-on_verb record_verb published head session sent reads =
    length-reply 501 none head (talks session sent reads)
length-on_verb other_verb published head session sent reads =
    length-reply 501 none head (talks session sent reads)

length-reader_continue :
    (rounds : List (Option ℕ × Head)) (c : Conn)
    → (reader_continue rounds c).phase ≡ talking
    → length (reader_continue rounds c).sent ≡ length c.sent + length rounds
unfolding reader_continue reader_next
length-reader_continue [] c e = omega arith
length-reader_continue ((published, head) ∷ rounds) c e = elim (Phase-cases c.phase) [
  | inr over ↦ let stays : c.phase ≡ talking = ground arith in absurd (ground arith)
  | inl talks_on ↦
      let c' = talks c.session c.sent c.reads in
      let same : c ≡ c' = cc talks_on in
      let one = length-on_verb head.verb published head c.session c.sent c.reads in
      let opened : reader_continue ((published, head) ∷ rounds) c
          ≡ reader_continue rounds (reader_next published head c') =
        rw same refl in
      let rest = length-reader_continue rounds (reader_next published head c') (rw opened at e) in
      rw opened (omega (arith, rest, one))
]

length-on_first :
    (v : Verb) (head : Head) (published : Option ℕ)
    → length (on_first v head (new_conn published)).sent ≡ 1
length-on_first describe head none = refl
length-on_first describe head (some s) = refl
length-on_first announce head published = refl
length-on_first record_verb head published = refl
length-on_first setup head published = refl
length-on_first play head published = refl
length-on_first teardown head published = refl
length-on_first options head published = refl
length-on_first other_verb head published = refl

-- A reader that still talks has been answered once for each of its requests.
pub reader_run_answers :
    (published : Option ℕ) (head : Head) (rounds : List (Option ℕ × Head))
    → (reader_run published head rounds).phase ≡ talking
    → length (reader_run published head rounds).sent ≡ suc (length rounds)
unfolding reader_run reader_first
reader_run_answers published head rounds e = omega (
  arith,
  length-reader_continue rounds (reader_first published head) e,
  length-on_first head.verb head published,
)

-- A camera that announces again replaces its session, and the end of the old connection leaves the new
-- session published; the end of the new one removes it. The sessions of other cameras stay.
pub unpublish-publish_session :
    (uid : Bytes) (old new : ℕ) (table : Table)
    → old ≢ new
    → ((other : Bytes)
        → unpublish uid old (publish_session uid new table) other
          ≡ publish_session uid new table other)
      × (unpublish uid new (publish_session uid new table) uid ≡ none)
      × ((other : Bytes)
          → bytes_eq other uid ≡ false
          → unpublish uid new (publish_session uid new table) other ≡ table other)
unfolding unpublish publish_session
unpublish-publish_session uid old new table differ =
    let own = bytes_eq_refl uid in
    (λ other. ground arith, ground arith, λ other apart. ground arith)
