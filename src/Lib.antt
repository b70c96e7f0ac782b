-- ===== src/Lib.antt =====
-- The window management core of leme, a Wayland compositor: how the windows of a tag share the
-- screen, where floating windows may stand, which tag a view belongs to and what is shown,
-- where the outputs are placed, the texts of the control socket, and the configuration's language.
--
-- The parts and their files:
--   Base: shared names, tests, lists, integers (Base/Int), the type `double` (Base/Floats).
--   Box: `struct leme_box` of src/core/leme.h, which all parts pass around.
--   Layout: src/workspace/layout.c and layout.h. Layout/Node is the dwindle tree with its `parent`
--     chains (`leme_layout_find`), Layout/Tree its insertion and removal, Layout/Arrange the boxes
--     (`leme_layout_arrange_node`), Layout/Detach the drag of a window out of the tree, back and
--     elsewhere, Layout/Resize the resize of the focused window, Layout/Drag the resize by pointer,
--     Layout/Neighbor, Layout/Swap, Layout/Candidates the choice of windows by order, direction and
--     point, Layout/Columns the master-stack and accordion layouts, Layout/Geometry the boxes of
--     floating windows, Layout/Drop the place of a dropped window, and Layout/Kinds `struct
--     leme_layout` with the operations that depend on its kind. Layout/Session lets all of these, and
--     `leme_tag_apply_settings`, follow one another in any order, with the drag and the detached window
--     that the caller keeps. Layout/Sequence has the operations on lists of views that the tree is
--     compared with.
--   Shell/Policy, Shell/Destination: src/shell/policy.c, the boxes of floating windows within an
--     area, and the tag that a new window goes to.
--   Output/Placement: src/output/placement.c, the positions of the outputs.
--   Tags: src/workspace/tag.c and tag.h. Tags/Focus is the focus of the tags of an output, Tags/Limit
--     their beginning and the limit on their ids, Tags/Ring the ids in a ring, Tags/World the tags of
--     all outputs with the views and their owners, Tags/Move what happens when views come, change
--     tags and leave, Tags/Visible what is shown and focused, Tags/Arranged the layouts of the tags,
--     Tags/Reload their new settings, Tags/Finish their end.
--   Ownership: src/shell/ownership.c, with the plans of tag.c that its transitions carry
--     (`leme_tags_prepare_detach`, `leme_tags_prepare_materialize`); Ownership/Durables has the
--     transitions, Ownership/Run the steps that move views, change the focus or the limit, and commit
--     transitions, in any order.
--   Scfg: src/config/scfg_lex.c, the tokens of a configuration file; Scfg/Source is
--     src/config/scfg_source.c, its lines, and Scfg/Parse src/config/scfg_parse.c, its directives.
--   Ipc/Request, Ipc/Json: src/ipc/request.c and src/ipc/json.c, the requests and the replies.
--   Examples: the theorems at concrete inputs.
-- The layouts, the policies and the placement work on boxes alone; the caller (src/workspace/tag.c,
-- src/shell/view.c, src/output/output.c) hands them views, areas and requests and applies the boxes.
--
-- State and operations: a function of the source that changes its argument returns the new value,
-- with the C result beside it; calls of a callback such as `apply` are a list in the order of the
-- calls. A node's address is a number; what `calloc` returns is an argument, and `realloc` a
-- function of the size, or of the place and the size in the configuration's language. A view is its pointer, 0 for NULL. C `int`s are integers, and a theorem that
-- needs their range has it as a hypothesis; `int64_t` sums of two `int`s do not overflow. `double`
-- and `long double` are a parameter with the operations used (Floats), of which theorems assume what
-- IEEE 754 says of comparisons and NaN.
--
-- A set of tags has a number as its address, a tag is named by its set and its id, and `table` is a
-- function, with `none` for NULL; what a pointer to a tag writes is an edit at that place. An owner names
-- a tag in this way. Ids are at most 64 (src/config/validate.c), so that no `uint16_t` wraps around.
-- Calls that draw, publish or focus have no part in the state of the tags; those that show views and
-- the one that focuses are results in Tags/Visible. `leme_tags_assign_view_to` also
-- copies the server's address to the tags, which the model leaves out, as the configuration is an
-- argument.
--
-- Fuel: the lexer takes as many turns as the file has bytes, since each turn takes a byte; the parser
-- as many rounds as there are tokens and one more, since each round but the last takes a token; the search of
-- a line halves the lines in as many rounds as there are lines; a step from a candidate looks at
-- `max_tags` ids, as the source does; a request of n bytes is split in n + 1 rounds, since each round
-- but the last takes a byte; n outputs are placed in n + 1 passes, since each pass but the last places
-- an output; the buffer of a reply is doubled at most 64 times, since it starts with a byte or more and `size_t` has 64 bits; a
-- `long` has at most 19 digits. The other loops are structural.
--
-- Not modelled: `leme_layout_destroy` and `leme_layout_discard_detached`, which only free memory;
-- nor are the functions that discard a prepared change. What reads the blocks of the
-- configuration, sticky views and scratchpads have no model. Input, rendering, the protocols and the
-- handlers of wlroots' signals are mostly calls of other libraries.
pub mod Base
pub mod Box
pub mod Layout
pub mod Shell
pub mod Ipc
pub mod Output
pub mod Tags
pub mod Ownership
pub mod Scfg
pub mod Examples
