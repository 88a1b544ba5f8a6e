-- ===== src/Proxy/HalfClose.antt =====
-- proxy/proxy.go: what is left of a tunnel after the copy in one direction has ended.
use ghostunnel.Prelude.{◌≡◌, ◌≢◌, ◌↔◌, ◌⊎◌, refl, inl, inr, true}
use ghostunnel.Proxy.Copy.{
  ConnKind, tcp, unix, tls, other, Conn, Ends, Direction, from_client, from_backend, reverse_of,
  close_src, close_dst, call, calls, copy_data,
}

-- Two ends that were just connected.
abbrev pub opened : (client backend : ConnKind) → Ends
opened client backend = record {
  client = record { kind = client; read_open = true; write_open = true };
  backend = record { kind = backend; read_open = true; write_open = true };
}

-- Bytes can flow in a direction.
abbrev pub Flows : Direction → Ends → Type 0
Flows from_client e = (e.client.read_open ≡ true) × (e.backend.write_open ≡ true)
Flows from_backend e = (e.backend.read_open ≡ true) × (e.client.write_open ≡ true)

abbrev pub source_of : Direction → Ends → ConnKind
source_of from_client e = e.client.kind
source_of from_backend e = e.backend.kind

abbrev pub target_of : Direction → Ends → ConnKind
target_of from_client e = e.backend.kind
target_of from_backend e = e.client.kind

-- The connection has a half that can be closed alone: for reading, for writing.
abbrev pub HalfReads : ConnKind → Type 0
HalfReads k = (k ≡ tcp) ⊎ (k ≡ unix)

abbrev fresh : ConnKind → Conn
fresh k = record { kind = k; read_open = true; write_open = true }

reads_after :
    (dst : ConnKind) → ((calls (close_dst dst) (fresh dst)).read_open ≡ true) ↔ (dst ≢ other)
unfolding close_dst calls call
reads_after tcp = (λ _ h. cc, λ _. refl)
reads_after unix = (λ _ h. cc, λ _. refl)
reads_after tls = (λ _ h. cc, λ _. refl)
reads_after other = (λ h. cc, λ n. absurd (n refl))

writes_after :
    (src : ConnKind) → ((calls (close_src src) (fresh src)).write_open ≡ true) ↔ HalfReads src
unfolding close_src calls call
writes_after tcp = (λ _. inl refl, λ _. refl)
writes_after unix = (λ _. inr refl, λ _. refl)
writes_after tls = (λ h. cc, λ s. elim s [ inl h ↦ cc | inr h ↦ cc ])
writes_after other = (λ h. cc, λ s. elim s [ inl h ↦ cc | inr h ↦ cc ])

half :
    (src dst : ConnKind)
    → (((calls (close_dst dst) (fresh dst)).read_open ≡ true)
        × ((calls (close_src src) (fresh src)).write_open ≡ true))
      ↔ (HalfReads src × (dst ≢ other))
half src dst = (
  λ (r, w). ((writes_after src).0 w, (reads_after dst).0 r),
  λ (w, r). ((reads_after dst).1 r, (writes_after src).1 w),
)

-- When the copy in one direction ends, for whatever reason, the other direction can still be used
-- exactly if the connection that was read from is a TCP connection or a UNIX socket, and the one
-- that was written to is of a kind that the program knows. A client that closes its side of a TLS
-- connection gets nothing more from the backend.
pub copy_data-Flows_iff :
    (d : Direction) (client backend : ConnKind)
    → Flows (reverse_of d) (copy_data d (opened client backend)) ↔ (
        HalfReads (source_of d (opened client backend))
        × (target_of d (opened client backend) ≢ other))
unfolding copy_data
copy_data-Flows_iff from_client client backend = half client backend
copy_data-Flows_iff from_backend client backend = half backend client
