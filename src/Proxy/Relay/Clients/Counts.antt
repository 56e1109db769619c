-- ===== src/Proxy/Relay/Clients/Counts.antt =====
-- proxy/proxy.go: the sessions and the counters agree with the clients, however these interleave.
use rtsp_go.Base.{
  ℕ, suc, ◌+◌, ◌^◌, ◌<◌, ◌≡◌, refl, sym, ap, ◌∙◌, Bool, false, [], ◌∷◌, Option, none, some,
  Bool-cases, inl, inr, arith, length, if◌then◌else◌,
}
use rtsp_go.Base.Word.{u64}
use rtsp_go.Base.Text.{Bytes, text_eq}
use rtsp_go.Base.Dict.{
  Dict, lookup, insert, delete, bytes_eq, lookup-insert, lookup-insert_self, lookup-delete_self,
  lookup-insert_other, lookup-delete_other,
}
use rtsp_go.Base.Dict.Keys.{
  Distinct, length-insert_new, length-delete, Distinct-insert, Distinct-delete,
}
use rtsp_go.Proxy.Relay.{ProxySession, ProxyStats, ProxyConfig}
use rtsp_go.Proxy.Relay.Session.{new_proxy_session, update_proxy_stats}
use rtsp_go.Proxy.Relay.Clients.{
  RtspProxy, Phase, accepted, added, counted, deleted, gone, Clients, advance, count_client,
  uncount_client, close_all, stop_proxy, Step, accepts, advances, forwards, stops, Steps, done,
  step, new_rtsp_proxy,
}

-- One for a goroutine whose session is in the table, that is counted as active, and whose client has
-- been counted at all.
abbrev pub listed : Phase → ℕ
listed accepted = 0
listed added = 1
listed counted = 1
listed deleted = 0
listed gone = 0

abbrev pub active : Phase → ℕ
active accepted = 0
active added = 0
active counted = 1
active deleted = 1
active gone = 0

abbrev pub connected : Phase → ℕ
connected accepted = 0
connected added = 0
connected counted = 1
connected deleted = 1
connected gone = 1

abbrev pub total : (Phase → ℕ) → Dict Bytes Phase → ℕ
total w [] = 0
total w ((id, phase) ∷ handlers) = w phase + total w handlers

total-insert_new :
    (w : Phase → ℕ) (id : Bytes) (phase : Phase) (handlers : Dict Bytes Phase)
    → lookup id handlers ≡ none
    → total w (insert id phase handlers) ≡ total w handlers + w phase
unfolding lookup insert
total-insert_new w id phase [] h = omega arith
total-insert_new w id phase ((j, p) ∷ handlers) h =
    ground (arith, total-insert_new w id phase handlers)

total-insert_old :
    (w : Phase → ℕ) (id : Bytes) (old phase : Phase) (handlers : Dict Bytes Phase)
    → lookup id handlers ≡ some old
    → total w (insert id phase handlers) + w old ≡ total w handlers + w phase
unfolding lookup insert
total-insert_old w id old phase [] h = ground arith
total-insert_old w id old phase ((j, p) ∷ handlers) h =
    ground (arith, total-insert_old w id old phase handlers)

abbrev has : {A : Type 0} → Option A → ℕ
has none = 0
has (some a) = 1

abbrev expects : Option Phase → ℕ
expects none = 0
expects (some phase) = listed phase

-- The table holds the sessions of the goroutines that have put theirs in and not yet taken it out,
-- and the counters count their clients.
pub record IsCounted (c : Clients) : Type 0 where
  pub distinct : Distinct c.proxy.sessions
  pub kept : (id : Bytes) → has (lookup id c.proxy.sessions) ≡ expects (lookup id c.handlers)
  pub table : length c.proxy.sessions ≡ total listed c.handlers
  pub counted_active : c.proxy.stats.active_sessions ≡ u64 (total active c.handlers)
  pub counted_clients : c.proxy.stats.total_connections ≡ u64 (total connected c.handlers)
  pub never_counted : c.proxy.stats.total_sessions ≡ 0

has-none : {A : Type 0} (o : Option A) → has o ≡ 0 → o ≡ none
has-none none h = refl
has-none (some a) h = absurd (omega arith)

has-some : {A : Type 0} (o : Option A) → has o ≡ 1 → (a : A) × (o ≡ some a)
has-some none h = absurd (omega arith)
has-some (some a) h = (a, refl)

-- A goroutine's phase, and perhaps its session, change; every other goroutine's stay.
kept-change :
    (id : Bytes) (phase : Phase) (before after : Dict Bytes ProxySession)
    (handlers : Dict Bytes Phase)
    → ((j : Bytes) → has (lookup j before) ≡ expects (lookup j handlers))
    → has (lookup id after) ≡ listed phase
    → ((j : Bytes) → text_eq id j ≡ false → lookup j after ≡ lookup j before)
    → (j : Bytes) → has (lookup j after) ≡ expects (lookup j (insert id phase handlers))
kept-change id phase before after handlers kept mine others j =
    let put = lookup-insert id j phase handlers in
    let expected = λ (b : Bool). expects (if b then some phase else lookup j handlers) in
    elim (Bool-cases (text_eq id j)) [
      | inl same ↦
          ap (λ k. has (lookup k after)) (sym ((bytes_eq.beq_iff id j).0 same))
          ∙ (mine ∙ sym (ap expects put ∙ ap expected same))
      | inr other ↦ ap has (others j other) ∙ (kept j ∙ sym (ap expects put ∙ ap expected other))
    ]

-- A goroutine goes on without a change of the table.
recount :
    (id : Bytes) (old phase : Phase) (p : RtspProxy) (st : ProxyStats) (handlers : Dict Bytes Phase)
    → lookup id handlers ≡ some old
    → listed phase ≡ listed old
    → u64 (st.active_sessions + active old) ≡ u64 (p.stats.active_sessions + active phase)
    → u64 (st.total_connections + connected old) ≡ u64 (p.stats.total_connections + connected phase)
    → (st.active_sessions < 2 ^ 64) × (st.total_connections < 2 ^ 64)
    → st.total_sessions ≡ p.stats.total_sessions
    → IsCounted (record { proxy = p; handlers = handlers })
    → IsCounted (record { proxy = record p { stats = st }; handlers = insert id phase handlers })
recount id old phase p st handlers here same a b small never c =
    let t = λ (w : Phase → ℕ). total-insert_old w id old phase handlers here in
    record {
      distinct = c.distinct;
      kept =
          kept-change id phase p.sessions p.sessions handlers c.kept
            (c.kept id ∙ ap expects here ∙ sym same) (λ j other. refl);
      table = omega (arith, c.table, t listed);
      counted_active = omega (arith, c.counted_active, t active);
      counted_clients = omega (arith, c.counted_clients, t connected);
      never_counted = never ∙ c.never_counted;
    }

advance-IsCounted :
    (id : Bytes) (now : ℕ) (phase : Phase) (p : RtspProxy) (handlers : Dict Bytes Phase)
    → lookup id handlers ≡ some phase
    → IsCounted (record { proxy = p; handlers = handlers })
    → IsCounted (record {
      proxy = (advance id now phase p).0;
      handlers = insert id (advance id now phase p).1 handlers;
    })
unfolding advance count_client uncount_client
advance-IsCounted id now accepted p handlers here c =
    let session = new_proxy_session id now in
    let t = λ (w : Phase → ℕ). total-insert_old w id accepted added handlers here in
    let fresh = has-none (lookup id p.sessions) (c.kept id ∙ ap expects here) in
    record {
      distinct = Distinct-insert id session p.sessions c.distinct;
      kept =
          kept-change id added p.sessions (insert id session p.sessions) handlers c.kept
            (ap has (lookup-insert_self id session p.sessions))
            (λ j. lookup-insert_other id j session p.sessions);
      table = omega (arith, c.table, t listed, length-insert_new id session p.sessions fresh);
      counted_active = omega (arith, c.counted_active, t active);
      counted_clients = omega (arith, c.counted_clients, t connected);
      never_counted = c.never_counted;
    }
advance-IsCounted id now added p handlers here c =
    recount id added counted p (count_client p.stats) handlers here refl (omega arith) (omega arith)
      (omega arith) refl c
advance-IsCounted id now counted p handlers here c =
    let t = λ (w : Phase → ℕ). total-insert_old w id counted deleted handlers here in
    let (session, there) = has-some (lookup id p.sessions) (c.kept id ∙ ap expects here) in
    record {
      distinct = Distinct-delete id p.sessions c.distinct;
      kept =
          kept-change id deleted p.sessions (delete id p.sessions) handlers c.kept
            (ap has (lookup-delete_self id p.sessions)) (λ j. lookup-delete_other id j p.sessions);
      table =
          omega (arith, c.table, t listed, length-delete id session p.sessions c.distinct there);
      counted_active = omega (arith, c.counted_active, t active);
      counted_clients = omega (arith, c.counted_clients, t connected);
      never_counted = c.never_counted;
    }
advance-IsCounted id now deleted p handlers here c =
    recount id deleted gone p (uncount_client p.stats) handlers here refl (omega arith)
      (omega (arith, c.counted_clients)) (omega (arith, c.counted_clients)) refl c
advance-IsCounted id now gone p handlers here c =
    recount id gone gone p p.stats handlers here refl refl refl
      (omega (arith, c.counted_active, c.counted_clients)) refl c

has-close_all :
    (id : Bytes) (sessions : Dict Bytes ProxySession)
    → has (lookup id (close_all sessions)) ≡ has (lookup id sessions)
unfolding close_all lookup
has-close_all id [] = refl
has-close_all id ((j, session) ∷ sessions) = elim (Bool-cases (text_eq j id)) [
  | inl same ↦ rw same refl
  | inr other ↦ rw other (has-close_all id sessions)
]

length-close_all :
    (sessions : Dict Bytes ProxySession) → length (close_all sessions) ≡ length sessions
unfolding close_all
length-close_all [] = refl
length-close_all ((j, session) ∷ sessions) = ap suc (length-close_all sessions)

Distinct-close_all :
    (sessions : Dict Bytes ProxySession) → Distinct sessions → Distinct (close_all sessions)
unfolding close_all
Distinct-close_all [] d = tt
Distinct-close_all ((j, session) ∷ sessions) (absent, d) = (
  has-none (lookup j (close_all sessions)) (has-close_all j sessions ∙ ap has absent),
  Distinct-close_all sessions d,
)

Step-IsCounted : (c d : Clients) → Step c d → IsCounted c → IsCounted d
unfolding update_proxy_stats stop_proxy
Step-IsCounted c d (accepts id {p} {handlers} fresh) h =
    let t = λ (w : Phase → ℕ). total-insert_new w id accepted handlers fresh in
    record {
      distinct = h.distinct;
      kept =
          kept-change id accepted p.sessions p.sessions handlers h.kept
            (h.kept id ∙ ap expects fresh) (λ j other. refl);
      table = omega (arith, h.table, t listed);
      counted_active = omega (arith, h.counted_active, t active);
      counted_clients = omega (arith, h.counted_clients, t connected);
      never_counted = h.never_counted;
    }
Step-IsCounted c d (advances id now phase {p} {handlers} here) h =
    advance-IsCounted id now phase p handlers here h
Step-IsCounted c d (forwards response {p} {handlers}) h = record {
  distinct = h.distinct;
  kept = h.kept;
  table = h.table;
  counted_active = h.counted_active;
  counted_clients = h.counted_clients;
  never_counted = h.never_counted;
}
Step-IsCounted c d (stops {p} {handlers}) h = record {
  distinct = Distinct-close_all p.sessions h.distinct;
  kept = λ id. has-close_all id p.sessions ∙ h.kept id;
  table = length-close_all p.sessions ∙ h.table;
  counted_active = h.counted_active;
  counted_clients = h.counted_clients;
  never_counted = h.never_counted;
}

keep : (c d : Clients) → Steps c d → IsCounted c → IsCounted d
keep c d done h = h
keep c e (step {d} s more) h = keep d e more (Step-IsCounted c d s h)

abbrev pub initial : ProxyConfig → ℕ → Clients
initial config now = record { proxy = new_rtsp_proxy config now; handlers = [] }

initial-IsCounted : (config : ProxyConfig) (now : ℕ) → IsCounted (initial config now)
unfolding new_rtsp_proxy lookup
initial-IsCounted config now = record {
  distinct = tt;
  kept = λ id. refl;
  table = refl;
  counted_active = refl;
  counted_clients = refl;
  never_counted = refl;
}

-- From a new proxy, however clients come and go, their goroutines take turns, messages are counted
-- and Stop is called, as long as no session ID is given twice: the table has one entry for each
-- goroutine that has put its session in and not yet taken it out, and for no other; ActiveSessions
-- is the number of clients that have been counted and not yet counted off, and TotalConnections that
-- of those ever counted (both modulo 2^64); and TotalSessions is still 0.
pub Steps-IsCounted :
    (config : ProxyConfig) (now : ℕ) (c : Clients) → Steps (initial config now) c → IsCounted c
Steps-IsCounted config now c run = keep (initial config now) c run (initial-IsCounted config now)
