-- ===== src/Common/Paths.antt =====
-- filepath.Clean and filepath.Join on slashes.
pub mod Components
use rdda.Common.{
  Bool, List, [], ◌∷◌, ◌++◌, Str, codes, ◌==◌, nat_eq, str_instance, ◌||◌, ◌&&◌, if◌then◌else◌,
  has_prefix, split_on,
}

-- One component of filepath.Clean, onto the components so far, the last one first.
clean_step : Bool → Str → List Str → List Str
clean_step rooted c [] =
    if c == [] || c == codes "." then [] else if c == codes ".." && rooted then [] else c ∷ []
clean_step rooted c (top ∷ stack) =
    if c == [] || c == codes "."
    then top ∷ stack
    else if c == codes ".."
    then (if top == codes ".." then c ∷ top ∷ stack else stack)
    else c ∷ top ∷ stack

clean_all : Bool → List Str → List Str → List Str
unfolding clean_step
clean_all rooted [] stack = stack
clean_all rooted (c ∷ cs) stack = clean_all rooted cs (clean_step rooted c stack)

joined : List Str → Str → Str
joined [] path = path
joined (c ∷ stack) path = joined stack (c ++ (if path == [] then [] else b'/' ∷ path))

-- filepath.Clean on slashes.
unfoldable pub clean : Str → Str
unfolding clean_all joined
clean name =
    let rooted = has_prefix name (codes "/") in
    let path = joined (clean_all rooted (split_on b'/' name) []) [] in
    if rooted then b'/' ∷ path else if path == [] then codes "." else path

-- filepath.Join of two elements that are not empty.
unfoldable pub join : Str → Str → Str
unfolding clean
join a b = clean (a ++ (b'/' ∷ b))
