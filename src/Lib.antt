-- ===== src/Lib.antt =====
-- Heimdall 2: the core logic of its library inspecjs, of the backend and of the stores of the
-- frontend, which view, filter and share the results of InSpec scans.
--
-- The parts. A report is a list of controls with results (Report). inspecjs derives from a control
-- its status, severity, message and NIST tags (Hdf, Tagging), and the tags are parsed and compared as
-- NIST controls (Nist); which controls of the profiles of a report extend which is a graph beside them
-- (Context). The frontend keeps the loaded files and which of them are selected
-- (Selection), selects the controls of the selected files by a filter (Filters), which reads the
-- derived values and the order of NIST controls, counts them (Counts), and compares the reports of
-- several files (Delta); it mirrors the groups and the evaluations of the backend (ServerLists). The
-- backend keeps accounts (Users), groups (Groups) and evaluations with their tags (Evaluations); each
-- handler asks the permissions (Authz), the bodies with passwords pass the pipes (Pipes) first, and
-- a user signs in with a password or through a provider (Authn).
-- Reports come as texts, which are converted against a map of types (FileParse, Convert), or as events
-- that a search of Splunk finds (Splunk). The controls of a view are drawn as a tree of NIST controls
-- (Treemap). The frontend keeps the token of its user across the reloads of its page (Session).
--
-- The files and their sources, under heimdall2-master:
--   Nist, Nist/Parse, Nist/Status: libs/inspecjs/src/nist.ts. NistControl with compare_lineage,
--     contains, localCompare (local_compare) and canonize; parse_nist with its regular expressions as
--     matchers; compare_statuses and updateStatus (update_status). Nist/Hierarchy is
--     _generate_full_nist_hierarchy, on a heap of nodes; the tables of raw_nist.ts are arguments.
--   Report: the interfaces of libs/inspecjs/src/generated_parsers/v_1_0 and compat_wrappers.ts.
--   Hdf, Tagging: libs/inspecjs/src/compat_impl/compat_inspec_1_0.ts. The constructors of ExecControl
--     and ProfileControl are exec_control and profile_control; the methods keep their names.
--   Authz: apps/backend/src/casl/casl-ability.factory.ts. createForUser (create_for_user) and
--     createForAnonymous give lists of rules; Authz/Casl says what the library makes of them.
--   Users, Groups: apps/backend/src/users and apps/backend/src/groups, services and controllers.
--     A handler put_user, delete_user and so on is named for the method and the path of its route;
--     it takes the state of the database and gives the next one and a result or an exception.
--   Evaluations: apps/backend/src/evaluations and evaluation-tags, services and controllers, and
--     interceptors/create-evaluation-interceptor.ts (intercept).
--   Authn: apps/backend/src/authn, the service and the strategies. validateOrCreateUser is
--     validate_or_create_user; what each provider answers is an argument of validate_github and so on.
--   Config: apps/backend/config/app_config.ts and apps/backend/src/config/config.service.ts. What
--     is_registration_allowed gives is an argument of post_user.
--   Context: libs/inspecjs/src/context.ts. The loops of contextualizeEvaluation are link_profiles,
--     all_controls and link_controls; the getters root, is_redundant and full_code are in
--     Context/Code. Context/Bases describes beside the code which control a control extends.
--   Pipes: apps/backend/src/pipes.
--   Selection: apps/frontend/src/store/data_store.ts, data_filters.ts and report_intake.ts. The
--     mutations and actions keep their names (SELECT_EVALUATIONS is select_evaluations, removeFile is
--     remove_file); the actions that the interface offers, with what the list of Splunk reports
--     (components/global/upload_tabs/splunk/FileList.vue) loads, are the relation Step of Selection/Reach.
--     Selection/Views forgets the order of the lists.
--   Delta: apps/frontend/src/utilities/delta_util.ts. The getter valid, headerChanges
--     (header_changes) and the pairings of ComparisonContext (pairings).
--   ServerLists: apps/frontend/src/store/groups.ts and evaluations.ts, the lists that mirror those of the
--     backend. DELETE_FROM_MY_GROUPS is delete_from_my_groups, UpdateGroup is update_group.
--   FileParse: libs/inspecjs/src/fileparse.ts; FileParse/Formats puts the parsers of Convert in.
--   Convert: libs/inspecjs/src/generated_parsers/v_1_0, the parsers of the three formats. transform
--     and its inner functions are in Convert/Transform, typeMap is type_map of Convert/ExecJson,
--     Convert/ExecJsonMin and Convert/ProfileJson; Convert/Conforms says what it is to be of a type.
--   Session: apps/frontend/src/store/server.ts, with LocalStorageVal of helper_util.ts. SET_TOKEN is
--     set_token, CheckForServer is check_for_server; the actions and the reloads of a page are the relation
--     Step of Session/Reach.
--   Splunk: apps/frontend/src/utilities/splunk_util.ts, with group_by and map_hash of helper_util.ts. The
--     consolidation is in Splunk, the class SplunkEndpoint in Splunk/Client; a promise is what it settles
--     to.
--   Treemap: apps/frontend/src/utilities/treemap_util.ts, on a heap of nodes; the leaves are
--     values. Treemap/Scaffold and Treemap/Fills are about recursive_nist_map.
--   Filters, Counts: apps/frontend/src/store/data_filters.ts, status_counts.ts, severity_counts.ts.
--   Prelude: names of the libraries, tests, lists, integers, texts and outcomes.
--   Tests: runs at concrete inputs, and values of the interfaces.
--
-- Bounds. The getters root and full_code of Context/Code follow links on fuel: one step more than any rank
-- of the profiles is enough where no profile is its own ancestor. The fuel of transform in Convert is
-- the depth of its calls: 16 is more than the types of the maps nest. The wait of Splunk/Client for a job
-- has as fuel the number of its checks; it ends with the first that is not pending. The scaffold of
-- Treemap needs one more than the two levels of the map, as long as a child has more specifiers than its
-- parent. Every other loop of these sources walks a list and is structural recursion.
-- A text that the code walks is its list of UTF-16 code units; an identifier is a string. An impact
-- is counted in units of 10^-15. Array.prototype.sort is a stable insertion sort. A number that the
-- code returns with a sign is an integer; lengths and counts are natural numbers.
--
-- What is assumed of libraries stands in interfaces: @casl/ability (Authz/Casl: the last rule that
-- applies decides, and queries read fields), sequelize (Users/Table, Groups/Table, Evaluations/Table:
-- which rows a statement reads and leaves, and that a transaction which succeeds did what its body did;
-- JSON.parse is in the last one, and nothing is assumed of
-- it), bcryptjs (Users.Bcrypt, nothing assumed), the JSON of a text (Session.Json: it is not empty and
-- parses back). js-levenshtein, localeCompare and toLowerCase, the parsers of Splunk/Client and the colors
-- of Treemap are functions of which nothing is assumed. The tests have values of all of them.
--
-- Not modelled: two requests at a time (a handler runs from one state to the next; a write that the
-- source does not wait for runs where it is started), the caches of
-- lru-cache in front of the getters, the mapping of rows to data transfer objects, the Vue components,
-- the parsing of DATABASE_URL, what d3 draws of the tree map, and tables of data.
pub mod Prelude
pub mod Nist
pub mod Report
pub mod Tagging
pub mod Hdf
pub mod Authz
pub mod Users
pub mod Config
pub mod Authn
pub mod Groups
pub mod Evaluations
pub mod Pipes
pub mod Filters
pub mod Context
pub mod Convert
pub mod Session
pub mod Splunk
pub mod Treemap
pub mod FileParse
pub mod Delta
pub mod Counts
pub mod ServerLists
pub mod Selection
pub mod Tests
