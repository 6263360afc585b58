-- ===== src/ElementBuffer/SelfCheck.antt =====
-- The self-checks of src/element_buffer.c: chain_is_ok_backwards, chain_is_ok_forward,
-- sky_element_buffer_valid_chain and sky_element_buffer_entire_buffer_is_ok. A walk is on fuel,
-- and `none` stands for one that has not ended: a ring of linked elements has no end, and the code
-- walks round it for ever. A chain has at most `element_count` elements.
pub mod Sound
pub mod Covered
pub mod Reach
use skylink.Base.{
  ℕ, zero, suc, ◌+◌, Bool, not, true, false, Option, none, some, if◌then◌else◌, ◌==◌,
}
use skylink.ElementBuffer.{
  ElementBuffer, element_is_free, element_is_first, element_is_last, element_is_in_chain,
}

unfoldable pub chain_is_ok_backwards : ℕ → ElementBuffer → ℕ → Option Bool
chain_is_ok_backwards zero b idx = none
chain_is_ok_backwards (suc k) b idx =
    let el = b.pool idx in
    let before = b.pool el.previous in
    let rest = chain_is_ok_backwards k b el.previous in
    if not (element_is_in_chain b el)
    then some false
    else if element_is_first b el
    then some true
    else if not (before.next == idx)
    then some false
    else rest

unfoldable pub chain_is_ok_forward : ℕ → ElementBuffer → ℕ → Option Bool
chain_is_ok_forward zero b idx = none
chain_is_ok_forward (suc k) b idx =
    let el = b.pool idx in
    let after = b.pool el.next in
    let rest = chain_is_ok_forward k b el.next in
    if not (element_is_in_chain b el)
    then some false
    else if element_is_last b el
    then some true
    else if not (after.previous == idx)
    then some false
    else rest

-- The answer of both walks, each of which has to end.
abbrev pub both : Option Bool → Option Bool → Option Bool
both (some true) c = c
both (some false) none = none
both (some false) (some y) = some false
both none c = none

unfoldable pub valid_chain : ElementBuffer → ℕ → Option Bool
valid_chain b idx =
    if not (element_is_in_chain b (b.pool idx))
    then some false
    else both (chain_is_ok_backwards b.element_count b idx)
        (chain_is_ok_forward b.element_count b idx)

-- What the loop goes on with after the check of one chain.
abbrev pub go_on_if : Option Bool → Option Bool → Option Bool
go_on_if (some true) rest = rest
go_on_if (some false) rest = some false
go_on_if none rest = none

-- The loop over the elements `i..i+k`, and the test of the counter behind it.
unfoldable pub buffer_loop : ElementBuffer → ℕ → ℕ → ℕ → Option Bool
buffer_loop b i zero counted_free = some (counted_free == b.free_elements)
buffer_loop b i (suc k) counted_free =
    let counted = buffer_loop b (i + 1) k (counted_free + 1) in
    let rest = buffer_loop b (i + 1) k counted_free in
    if element_is_free (b.pool i) then counted else go_on_if (valid_chain b i) rest

unfoldable pub entire_buffer_is_ok : ElementBuffer → Option Bool
entire_buffer_is_ok b = buffer_loop b 0 b.element_count 0
