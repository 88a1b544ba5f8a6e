-- ===== src/Proxy/Copy.antt =====
-- proxy/proxy.go: `fuse` and `copyData`, in what they do to the two connections.
use ghostunnel.Prelude.{◌≡◌, refl, sym, subst, Bool, false, List, [], ◌∷◌}

pub data ConnKind : Type 0 where
  tcp unix tls other : ConnKind

-- The methods that `copyData` calls.
pub data Call : Type 0 where
  set_linger close_read close_write close : Call

-- The `switch` on the source, and the one on the destination.
unfoldable pub close_src : ConnKind → List Call
close_src tcp = set_linger ∷ close_read ∷ []
close_src unix = close_read ∷ []
close_src tls = close ∷ []
close_src other = close ∷ []

unfoldable pub close_dst : ConnKind → List Call
close_dst tcp = set_linger ∷ close_write ∷ []
close_dst tls = close_write ∷ []
close_dst unix = close_write ∷ []
close_dst other = close ∷ []

-- The two directions of a connection.
pub record Conn : Type 0 where
  pub kind : ConnKind
  pub read_open : Bool
  pub write_open : Bool

unfoldable pub call : Call → Conn → Conn
call set_linger c = c
call close_read c = record c { read_open = false }
call close_write c = record c { write_open = false }
call close c = record c { read_open = false; write_open = false }

unfoldable pub calls : List Call → Conn → Conn
calls [] c = c
calls (x ∷ xs) c = calls xs (call x c)

-- The two ends of a tunnel, and which one is the source of a copy.
pub record Ends : Type 0 where
  pub client : Conn
  pub backend : Conn

pub data Direction : Type 0 where
  from_client from_backend : Direction

-- The end of `copyData`, after the copy has returned, with or without an error.
unfoldable pub copy_data : Direction → Ends → Ends
copy_data from_client e = record {
  client = calls (close_src e.client.kind) e.client;
  backend = calls (close_dst e.backend.kind) e.backend;
}
copy_data from_backend e = record {
  client = calls (close_dst e.client.kind) e.client;
  backend = calls (close_src e.backend.kind) e.backend;
}

abbrev pub reverse_of : Direction → Direction
reverse_of from_client = from_backend
reverse_of from_backend = from_client

-- `fuse` waits for both copies; `first` is the one that ends first.
unfoldable pub fuse : Direction → Ends → Ends
fuse first e = copy_data (reverse_of first) (copy_data first e)

abbrev pub IsShut : Conn → Type 0
IsShut c = (c.read_open ≡ false) × (c.write_open ≡ false)

both-IsShut :
    (k : ConnKind) (c : Conn)
    → IsShut (calls (close_src k) (calls (close_dst k) c))
      × IsShut (calls (close_dst k) (calls (close_src k) c))
unfolding close_src close_dst calls call
both-IsShut tcp c = ((refl, refl), (refl, refl))
both-IsShut unix c = ((refl, refl), (refl, refl))
both-IsShut tls c = ((refl, refl), (refl, refl))
both-IsShut other c = ((refl, refl), (refl, refl))

calls-kind : (xs : List Call) (c : Conn) → (calls xs c).kind ≡ c.kind
unfolding calls call
calls-kind [] c = refl
calls-kind (set_linger ∷ xs) c = calls-kind xs c
calls-kind (close_read ∷ xs) c = calls-kind xs (record c { read_open = false })
calls-kind (close_write ∷ xs) c = calls-kind xs (record c { write_open = false })
calls-kind (close ∷ xs) c = calls-kind xs (record c { read_open = false; write_open = false })

src_last :
    (c : Conn)
    → IsShut (calls (close_src (calls (close_dst c.kind) c).kind) (calls (close_dst c.kind) c))
src_last c =
    subst (λ (k : ConnKind). IsShut (calls (close_src k) (calls (close_dst c.kind) c)))
      (sym (calls-kind (close_dst c.kind) c)) (both-IsShut c.kind c).0

dst_last :
    (c : Conn)
    → IsShut (calls (close_dst (calls (close_src c.kind) c).kind) (calls (close_src c.kind) c))
dst_last c =
    subst (λ (k : ConnKind). IsShut (calls (close_dst k) (calls (close_src c.kind) c)))
      (sym (calls-kind (close_src c.kind) c)) (both-IsShut c.kind c).1

-- When `fuse` returns, both ends are shut in both directions, whatever their kinds and whichever
-- copy ended first.
pub fuse-IsShut :
    (first : Direction) (e : Ends) → IsShut (fuse first e).client × IsShut (fuse first e).backend
unfolding fuse copy_data
fuse-IsShut from_client e = (dst_last e.client, src_last e.backend)
fuse-IsShut from_backend e = (src_last e.client, dst_last e.backend)
